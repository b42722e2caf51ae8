-- ===== src/Stream/TlsStream/Reader/Bodies.antt =====
-- The body loop: what it takes from the upstream, however that splits the input.
use v3mtp.Prelude.{
  ℕ, zero, suc, ◌-◌, ◌≤◌, ◌<◌, min, ◌≡◌, ◌⊎◌, inl, inr, refl, sym, ap, ◌∙◌, arith, true, false,
  List, [], ◌++◌, append_assoc, leb, length, length-append, is_empty, is_empty_pos, Bool-cases,
  leb→le, leb_false→lt,
}
use v3mtp.Stream.Io.{IoError, unexpected_eof, pending, failed, ready, AsyncRead, Reads}
use v3mtp.Stream.TlsStream.{BodyPollResult, body_pending, body_complete, body_error, poll_read_body}
use v3mtp.Stream.TlsStream.Reader.{
  was_pending, was_failed, was_ready, answered, read_end, Polled, then_ready, WaitsBetween,
  FailsBetween,
}

module _ (io : AsyncRead) where
  open io use {Input, poll_read, rest, reads}

  abbrev pub BodyTold : Input → BodyPollResult → ℕ → List ℕ → Input → List ℕ → Type 0
  BodyTold start body_pending len before u buffer =
      (before ≡ buffer ++ rest u) × ((length buffer ≤ len) × WaitsBetween io start u)
  BodyTold start (body_complete payload) len before u buffer =
      Polled io start u × ((before ≡ payload ++ rest u) × (length payload ≡ len))
  BodyTold start (body_error e) len before u buffer =
      ((e ≡ unexpected_eof) × ((length before < len) × (rest u ≡ []))) ⊎ FailsBetween io e start u

  abbrev room_of : ℕ → List ℕ → ℕ
  room_of len buffer = min (len - length buffer) 8192

  module _ (rounds len : ℕ) (u : Input) (buffer : List ℕ)
      (more : leb len (length buffer) ≡ false) where
    body_waits :
        (poll_read (room_of len buffer) u).0 ≡ pending
        → poll_read_body io (suc rounds) u len buffer
          ≡ (body_pending, ((poll_read (room_of len buffer) u).1, buffer))
    unfolding poll_read_body
    body_waits w = rw (more, w, poll_read_body)

    body_fails :
        (e : IoError)
        → (poll_read (room_of len buffer) u).0 ≡ failed e
        → poll_read_body io (suc rounds) u len buffer
          ≡ (body_error e, ((poll_read (room_of len buffer) u).1, buffer))
    unfolding poll_read_body
    body_fails e w = rw (more, w, poll_read_body)

    body_ends :
        (got : List ℕ)
        → (poll_read (room_of len buffer) u).0 ≡ ready got
        → is_empty got ≡ true
        → poll_read_body io (suc rounds) u len buffer
          ≡ (body_error unexpected_eof, ((poll_read (room_of len buffer) u).1, buffer))
    unfolding poll_read_body
    body_ends got w over = rw (more, w, over, poll_read_body)

    body_grows :
        (got : List ℕ)
        → (poll_read (room_of len buffer) u).0 ≡ ready got
        → is_empty got ≡ false
        → poll_read_body io (suc rounds) u len buffer
          ≡ poll_read_body io rounds (poll_read (room_of len buffer) u).1 len (buffer ++ got)
    unfolding poll_read_body
    body_grows got w some_read = rw (more, w, some_read, poll_read_body)

  body_full :
      (rounds len : ℕ) (u : Input) (buffer : List ℕ)
      → leb len (length buffer) ≡ true
      → poll_read_body io rounds u len buffer ≡ (body_complete buffer, (u, buffer))
  unfolding poll_read_body
  body_full zero len u buffer full = rw (full, poll_read_body)
  body_full (suc rounds) len u buffer full = rw (full, poll_read_body)

  pub poll_read_body_lem :
      (start : Input) (rounds len : ℕ) (before : List ℕ) (u : Input) (buffer : List ℕ)
      → length buffer ≤ len
      → len - length buffer ≤ rounds
      → before ≡ buffer ++ rest u
      → Polled io start u
      → BodyTold start
          (poll_read_body io rounds u len buffer).0
          len
          before
          (poll_read_body io rounds u len buffer).1.0
          (poll_read_body io rounds u len buffer).1.1
  poll_read_body_lem start zero len before u buffer small few e way =
      rw (body_full zero len u buffer (ground (arith, few))) (way, (e, omega (arith, small, few)))
  poll_read_body_lem start (suc rounds) len before u buffer small few e way =
      elim (Bool-cases (leb len (length buffer))) [
        | inl full ↦
            rw (body_full (suc rounds) len u buffer full)
              (way, (e, omega (arith, small, leb→le len (length buffer) full)))
        | inr more ↦
            let r = poll_read (room_of len buffer) u in
            let law : Reads (room_of len buffer) (rest u) (rest r.1) r.0 =
              reads (room_of len buffer) u in
            let short : length buffer < len = leb_false→lt len (length buffer) more in
            elim (answered r.0) [
              | was_pending w ↦ rw (body_waits rounds len u buffer more w) (
                e ∙ ap (λ xs. buffer ++ xs) (rw w at law),
                (small, (room_of len buffer, (u, (way, (w, refl))))),
              )
              | was_failed err w ↦
                  rw (body_fails rounds len u buffer more err w)
                    (inr (room_of len buffer, (u, (way, (w, refl)))))
              | was_ready got w ↦
                  let law' : Reads (room_of len buffer) (rest u) (rest r.1) (ready got) =
                    rw w at law in
                  elim (Bool-cases (is_empty got)) [
                    | inl over ↦ rw (body_ends rounds len u buffer more got w over) (
                        let at_end =
                          read_end (room_of len buffer) (rest u) (rest r.1) got law'
                            (omega (arith, short)) over in
                        inl (
                          refl,
                          (
                            omega (
                              arith,
                              short,
                              ap length e,
                              length-append buffer (rest u),
                              ap length at_end.0,
                            ),
                            at_end.1,
                          ),
                        ))
                    | inr some_read ↦ rw (body_grows rounds len u buffer more got w some_read) (
                        poll_read_body_lem start rounds len before r.1 (buffer ++ got)
                          (omega (arith, short, law'.1.0, length-append buffer got))
                          (omega (arith, few, length-append buffer got, is_empty_pos got some_read))
                          (e
                            ∙ ap (λ xs. buffer ++ xs) law'.0
                            ∙ sym (append_assoc buffer got (rest r.1)))
                          (then_ready (room_of len buffer) got way w))
                  ]
            ]
      ]
