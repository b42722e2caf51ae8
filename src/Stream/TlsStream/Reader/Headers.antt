-- ===== src/Stream/TlsStream/Reader/Headers.antt =====
-- The header loop: what it takes from the upstream, however that splits the input.
use v3mtp.Prelude.{
  ℕ, zero, suc, ◌+◌, ◌≤◌, ◌<◌, ◌≡◌, ◌⊎◌, inl, inr, refl, sym, ap, ◌∙◌, arith, true, false, List, [],
  ◌++◌, append_assoc, append-nil, some, length, length-take, is_empty, take, take-all, is_empty_nil,
  is_empty_pos, Bool-cases, leb→le, leb_false→lt,
}
use v3mtp.Stream.Io.{IoError, unexpected_eof, pending, failed, ready, AsyncRead, Reads}
use v3mtp.Stream.State.Header
use v3mtp.Stream.State.Header.{HeaderBuffer, length-receive, filled-receive, as_slice-receive}
use v3mtp.Stream.TlsStream.{
  HeaderPollResult, header_pending, header_eof, header_complete, header_error, parse, parsed,
  header_end, poll_read_header,
}
use v3mtp.Stream.TlsStream.Reader.{
  was_pending, was_failed, was_ready, answered, read_end, Polled, then_ready, WaitsBetween,
  FailsBetween,
}

abbrev pub IsFilling : HeaderBuffer → Type 0
IsFilling h = (length h.bytes ≡ 5) × (h.filled ≤ 5)

abbrev pub IsPartial : HeaderBuffer → Type 0
IsPartial h = (length h.bytes ≡ 5) × (h.filled < 5)

module _ (io : AsyncRead) where
  open io use {Input, poll_read, rest, reads}

  -- Where the input that was left is `before`, and the poll of the reader began at `start`.
  abbrev pub HeaderTold : Input → HeaderPollResult → List ℕ → Input → HeaderBuffer → Type 0
  HeaderTold start header_pending before u h =
      (before ≡ Header.as_slice h ++ rest u) × (IsPartial h × WaitsBetween io start u)
  HeaderTold start header_eof before u h = (before ≡ []) × (rest u ≡ [])
  HeaderTold start (header_complete p) before u h =
      Polled io start u
      × ((xs : List ℕ) × ((length xs ≡ 5) × ((before ≡ xs ++ rest u) × (parse xs ≡ some p))))
  HeaderTold start (header_error e) before u h =
      ((e ≡ unexpected_eof) × ((0 < length before) × (length before < 5)))
      ⊎ FailsBetween io e start u

  complete_told :
      (start : Input) (before : List ℕ) (u : Input) (h : HeaderBuffer)
      → IsFilling h
      → Header.is_complete h ≡ true
      → before ≡ Header.as_slice h ++ rest u
      → Polled io start u
      → HeaderTold start (parsed (parse h.bytes)) before u h
  unfolding parse
  complete_told start before u h fill full e way =
      let all : take h.filled h.bytes ≡ h.bytes =
        take-all h.filled h.bytes (leb→le (length h.bytes) h.filled full) in
      (way, (h.bytes, (fill.0, (e ∙ ap (λ xs. xs ++ rest u) all, refl))))

  end_told :
      (start : Input) (before : List ℕ) (u : Input) (h : HeaderBuffer)
      → IsPartial h
      → before ≡ Header.as_slice h
      → rest u ≡ []
      → HeaderTold start (header_end h) before u h
  end_told start before u h part e over = elim (Bool-cases (is_empty (Header.as_slice h))) [
    | inl none_read ↦ rw none_read (e ∙ is_empty_nil (Header.as_slice h) none_read, over)
    | inr some_read ↦ rw some_read (
        inl (
          refl,
          (
            omega (arith, ap length e, is_empty_pos (Header.as_slice h) some_read),
            omega (arith, ap length e, length-take h.filled h.bytes),
          ),
        ))
  ]

  module _ (rounds : ℕ) (u : Input) (h : HeaderBuffer) (more : Header.is_complete h ≡ false) where
    header_waits :
        (poll_read (Header.remaining h) u).0 ≡ pending
        → poll_read_header io (suc rounds) u h
          ≡ (header_pending, ((poll_read (Header.remaining h) u).1, h))
    unfolding poll_read_header
    header_waits w = rw (more, w, poll_read_header)

    header_fails :
        (e : IoError)
        → (poll_read (Header.remaining h) u).0 ≡ failed e
        → poll_read_header io (suc rounds) u h
          ≡ (header_error e, ((poll_read (Header.remaining h) u).1, h))
    unfolding poll_read_header
    header_fails e w = rw (more, w, poll_read_header)

    header_ends :
        (got : List ℕ)
        → (poll_read (Header.remaining h) u).0 ≡ ready got
        → is_empty got ≡ true
        → poll_read_header io (suc rounds) u h
          ≡ (header_end h, ((poll_read (Header.remaining h) u).1, h))
    unfolding poll_read_header
    header_ends got w over = rw (more, w, over, poll_read_header)

    header_grows :
        (got : List ℕ)
        → (poll_read (Header.remaining h) u).0 ≡ ready got
        → is_empty got ≡ false
        → poll_read_header io (suc rounds) u h
          ≡ poll_read_header io rounds (poll_read (Header.remaining h) u).1 (Header.receive got h)
    unfolding poll_read_header
    header_grows got w some_read = rw (more, w, some_read, poll_read_header)

  header_full :
      (rounds : ℕ) (u : Input) (h : HeaderBuffer)
      → Header.is_complete h ≡ true
      → poll_read_header io rounds u h ≡ (parsed (parse h.bytes), (u, h))
  unfolding poll_read_header
  header_full zero u h full = rw (full, poll_read_header)
  header_full (suc rounds) u h full = rw (full, poll_read_header)

  pub poll_read_header_lem :
      (start : Input) (rounds : ℕ) (before : List ℕ) (u : Input) (h : HeaderBuffer)
      → IsFilling h
      → Header.remaining h ≤ rounds
      → before ≡ Header.as_slice h ++ rest u
      → Polled io start u
      → HeaderTold start
          (poll_read_header io rounds u h).0
          before
          (poll_read_header io rounds u h).1.0
          (poll_read_header io rounds u h).1.1
  poll_read_header_lem start zero before u h fill few e way =
      let full : Header.is_complete h ≡ true = ground (arith, fill.0, few) in
      rw (header_full zero u h full) (complete_told start before u h fill full e way)
  poll_read_header_lem start (suc rounds) before u h fill few e way =
      elim (Bool-cases (Header.is_complete h)) [
        | inl full ↦
            rw (header_full (suc rounds) u h full) (complete_told start before u h fill full e way)
        | inr more ↦
            let r = poll_read (Header.remaining h) u in
            let law : Reads (Header.remaining h) (rest u) (rest r.1) r.0 =
              reads (Header.remaining h) u in
            let part : IsPartial h =
              (fill.0, omega (arith, fill.0, leb_false→lt (length h.bytes) h.filled more)) in
            elim (answered r.0) [
              | was_pending w ↦ rw (header_waits rounds u h more w) (
                e ∙ ap (λ xs. Header.as_slice h ++ xs) (rw w at law),
                (part, (Header.remaining h, (u, (way, (w, refl))))),
              )
              | was_failed err w ↦
                  rw (header_fails rounds u h more err w)
                    (inr (Header.remaining h, (u, (way, (w, refl)))))
              | was_ready got w ↦
                  let law' : Reads (Header.remaining h) (rest u) (rest r.1) (ready got) =
                    rw w at law in
                  elim (Bool-cases (is_empty got)) [
                    | inl over ↦ rw (header_ends rounds u h more got w over) (
                        let at_end =
                          read_end (Header.remaining h) (rest u) (rest r.1) got law'
                            (omega (arith, part.0, part.1)) over in
                        end_told start before r.1 h part
                          (e
                            ∙ ap (λ xs. Header.as_slice h ++ xs) at_end.0
                            ∙ append-nil (Header.as_slice h))
                          at_end.1)
                    | inr some_read ↦ rw (header_grows rounds u h more got w some_read) (
                        let fits : h.filled + length got ≤ length h.bytes =
                          omega (arith, part.0, part.1, law'.1.0) in
                        poll_read_header_lem start rounds before r.1 (Header.receive got h)
                          (
                            length-receive got h fits ∙ fill.0,
                            omega (arith, fill.0, filled-receive got h fits),
                          )
                          (omega (
                            arith,
                            fill.0,
                            few,
                            filled-receive got h fits,
                            length-receive got h fits,
                            is_empty_pos got some_read,
                          ))
                          (e
                            ∙ ap (λ xs. Header.as_slice h ++ xs) law'.0
                            ∙ sym (append_assoc (Header.as_slice h) got (rest r.1))
                            ∙ ap (λ xs. xs ++ rest r.1) (sym (as_slice-receive got h fits)))
                          (then_ready (Header.remaining h) got way w))
                  ]
            ]
      ]
