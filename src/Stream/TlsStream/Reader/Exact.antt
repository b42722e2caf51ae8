-- ===== src/Stream/TlsStream/Reader/Exact.antt =====
-- `read_exact` of the reader: over an upstream that always answers, it reads what was asked for.
use v3mtp.Prelude.{
  ℕ, zero, suc, ◌+◌, ◌-◌, ◌≤◌, ◌<◌, ◌≡◌, inl, inr, refl, sym, ap, ◌∙◌, arith, true, false, List, [],
  ◌∷◌, ◌++◌, map, append_assoc, Result, ok, err, leb, Option, none, some, length, length-append,
  is_empty, is_empty_nil, is_empty_pos, if◌then◌else◌, Option-cases, Bool-cases, leb→le,
  leb_false→lt,
}
use v3mtp.Stream.Io.{IoError, unexpected_eof, Poll, pending, failed, ready, AsyncRead}
use v3mtp.Stream.TlsStream.{
  TlsReaderState, idle, reading_header, reading_body, yielding, poisoned, FakeTlsReader, stored,
}
use v3mtp.Stream.TlsStream.Decode.{Event, byte, closed, broken}
use v3mtp.Stream.TlsStream.Reader.{Fails, Waits, WaitsBetween-Waits, FailsBetween-Fails}
use v3mtp.Stream.TlsStream.Reader.Accounts.{future, IsLeft, IsIntact, Accounts}
use v3mtp.Stream.TlsStream.Reader.Polls.{poll_read, PollTold, poll_read-PollTold}

-- The data before an alert or an error.
abbrev pub leading : List Event → List ℕ
leading [] = []
leading (byte b ∷ es) = b ∷ leading es
leading (closed ∷ es) = []
leading (broken e ∷ es) = []

pub leading-map :
    (bytes : List ℕ) (es : List Event) → leading (map byte bytes ++ es) ≡ bytes ++ leading es
leading-map [] es = refl
leading-map (b ∷ bytes) es = ap (λ xs. b ∷ xs) (leading-map bytes es)

module _ (io : AsyncRead) where
  -- The loop of `read_exact`, with the number of polls as fuel; a pending poll is made again.
  unfoldable pub read_loop :
      ℕ → ℕ → List ℕ → FakeTlsReader io → Option (Result IoError (List ℕ) × FakeTlsReader io)
  read_loop zero n result r = if leb n (length result) then some (ok result, r) else none
  read_loop (suc fuel) n result r = elim (leb n (length result)) [
    | true ↦ some (ok result, r)
    | false ↦ elim (poll_read io (n - length result) r) [
      | none ↦ none
      | some p ↦ elim p.0 [
        | pending ↦ read_loop fuel n result p.1
        | failed e ↦ some (err e, p.1)
        | ready got ↦ elim (is_empty got) [
          | true ↦ some (err unexpected_eof, p.1)
          | false ↦ read_loop fuel n (result ++ got) p.1
        ]
      ]
    ]
  ]

  abbrev unless_poisoned :
      ℕ → ℕ → io.Input → TlsReaderState → Option (Result IoError (List ℕ) × FakeTlsReader io)
  unless_poisoned fuel n u (poisoned e) =
      some (err (stored e), record { upstream = u; state = poisoned none })
  unless_poisoned fuel n u s = read_loop fuel n [] (record { upstream = u; state = s })

  unfoldable pub read_exact :
      ℕ → ℕ → FakeTlsReader io → Option (Result IoError (List ℕ) × FakeTlsReader io)
  read_exact fuel n r = unless_poisoned fuel n r.upstream r.state

  -- The upstream is never pending, and never fails.
  abbrev pub Willing : Type 0
  Willing = (Waits io → ⊥) × ((e : IoError) → Fails io e → ⊥)

  -- The bytes, and then what is left of the leading data.
  abbrev pub ExactTold : ℕ → List ℕ → Option (Result IoError (List ℕ) × FakeTlsReader io) → Type 0
  ExactTold n data_ none = ⊥
  ExactTold n data_ (some (err e, r)) = ⊥
  ExactTold n data_ (some (ok bytes, r)) =
      (length bytes ≡ n) × ((data_ ≡ bytes ++ leading (future io r)) × IsIntact io r.state)

  read_loop_full :
      (fuel n : ℕ) (result : List ℕ) (r : FakeTlsReader io)
      → leb n (length result) ≡ true
      → read_loop fuel n result r ≡ some (ok result, r)
  unfolding read_loop
  read_loop_full zero n result r full = rw (full, read_loop)
  read_loop_full (suc fuel) n result r full = rw (full, read_loop)

  read_loop_grows :
      (fuel n : ℕ) (result : List ℕ) (r r' : FakeTlsReader io) (got : List ℕ)
      → leb n (length result) ≡ false
      → poll_read io (n - length result) r ≡ some (ready got, r')
      → is_empty got ≡ false
      → read_loop (suc fuel) n result r ≡ read_loop fuel n (result ++ got) r'
  unfolding read_loop
  read_loop_grows fuel n result r r' got more e some_read = rw (more, e, some_read, read_loop)

  -- Where data leads, a poll into a buffer with room reads some of it.
  abbrev Progress : ℕ → List Event → Poll (List ℕ) → FakeTlsReader io → Type 0
  Progress room before out r =
      (got : List ℕ) × ((out ≡ ready got)
        × ((is_empty got ≡ false)
            × ((length got ≤ room)
                × ((leading before ≡ got ++ leading (future io r)) × IsIntact io r.state))))

  progress :
      (start : io.Input) (room : ℕ) (before : List Event) (out : Poll (List ℕ))
      (r : FakeTlsReader io)
      → Willing
      → 0 < room
      → 0 < length (leading before)
      → IsLeft io out r.state
      → Accounts io start room before out r
      → Progress room before out r
  progress start room before pending r willing pos some_left left acc =
      absurd (willing.0 (WaitsBetween-Waits io acc.1))
  progress start room before (failed e) r willing pos some_left left acc = elim acc.1 [
    | inl h ↦ absurd (omega (arith, some_left, ap (λ es. length (leading es)) h))
    | inr h ↦ absurd (willing.1 e (FailsBetween-Fails io h))
  ]
  progress start room before (ready got) r willing pos some_left left (inl acc) =
      elim (Bool-cases (is_empty got)) [
        | inl nothing ↦ absurd (omega (arith, pos, acc.1.0 (is_empty_nil got nothing)))
        | inr some_read ↦ (
          got,
          (refl, (some_read, (acc.1.1, (ap leading acc.0 ∙ leading-map got (future io r), left)))),
        )
      ]
  progress start room before (ready got) r willing pos some_left left (inr acc) = elim acc.1 [
    | inl h ↦ absurd (omega (arith, some_left, ap (λ es. length (leading es)) h))
    | inr h ↦ absurd (omega (arith, some_left, ap (λ es. length (leading es)) h.0))
  ]

  loop_step :
      (fuel n : ℕ) (result : List ℕ) (r : FakeTlsReader io) (out : Poll (List ℕ))
      (r' : FakeTlsReader io)
      → leb n (length result) ≡ false
      → poll_read io (n - length result) r ≡ some (out, r')
      → Progress (n - length result) (future io r) out r'
      → ((got : List ℕ)
          → IsIntact io r'.state
          → 0 < length got
          → length got ≤ n - length result
          → leading (future io r) ≡ got ++ leading (future io r')
          → ExactTold n
              ((result ++ got) ++ leading (future io r'))
              (read_loop fuel n (result ++ got) r'))
      → ExactTold n (result ++ leading (future io r)) (read_loop (suc fuel) n result r)
  loop_step fuel n result r out r' more e (got, (is_ready, (some_read, (fits, (split, left)))))
        again =
      rw
        (
          read_loop_grows fuel n result r r' got more (e ∙ ap (λ o. some (o, r')) is_ready)
              some_read,
          ap (λ xs. result ++ xs) split ∙ sym (append_assoc result got (leading (future io r'))),
        )
        (again got left (is_empty_pos got some_read) fits split)

  read_loop_lem :
      (fuel n : ℕ) (result : List ℕ) (r : FakeTlsReader io)
      → Willing
      → IsIntact io r.state
      → length result ≤ n
      → n ≤ length result + fuel
      → n ≤ length result + length (leading (future io r))
      → ExactTold n (result ++ leading (future io r)) (read_loop fuel n result r)
  read_loop_lem zero n result r willing sound small few enough =
      rw (read_loop_full zero n result r (ground (arith, few)))
        (omega (arith, small, few), (refl, sound))
  read_loop_lem (suc fuel) n result r willing sound small few enough =
      elim (Bool-cases (leb n (length result))) [
        | inl full ↦
            rw (read_loop_full (suc fuel) n result r full)
              (omega (arith, small, leb→le n (length result) full), (refl, sound))
        | inr more ↦ elim (Option-cases (poll_read io (n - length result) r)) [
          | inl nothing ↦ absurd (rw nothing at (poll_read-PollTold io (n - length result) r sound))
          | inr p ↦
              let short : length result < n = leb_false→lt n (length result) more in
              let told : PollTold io r.upstream (n - length result) (future io r) (some p.0) =
                rw p.1 at (poll_read-PollTold io (n - length result) r sound) in
              loop_step fuel n result r p.0.0 p.0.1 more p.1
                (progress r.upstream (n - length result) (future io r) p.0.0 p.0.1 willing
                  (omega (arith, short)) (omega (arith, enough, short)) told.0 told.1)
                (λ got left pos fits split.
                  read_loop_lem fuel n (result ++ got) p.0.1 willing left
                    (omega (arith, short, fits, length-append result got))
                    (omega (arith, few, length-append result got, pos))
                    (omega (
                      arith,
                      enough,
                      length-append result got,
                      ap length split,
                      length-append got (leading (future io p.0.1)),
                    )))
        ]
      ]

  intact-unless_poisoned :
      (fuel n : ℕ) (u : io.Input) (s : TlsReaderState)
      → IsIntact io s
      → unless_poisoned fuel n u s ≡ read_loop fuel n [] (record { upstream = u; state = s })
  intact-unless_poisoned fuel n u idle sound = refl
  intact-unless_poisoned fuel n u (reading_header h) sound = refl
  intact-unless_poisoned fuel n u (reading_body ty len buffer) sound = refl
  intact-unless_poisoned fuel n u (yielding y) sound = refl
  intact-unless_poisoned fuel n u (poisoned e) sound = absurd sound

  -- Over an upstream that is never pending and never fails, a reader that has not failed, and has
  -- `n` bytes of data to come before any alert or error, reads exactly these bytes, in at most `n`
  -- polls, and the data behind them is still to come.
  pub read_exact_lem :
      (n : ℕ) (r : FakeTlsReader io)
      → Willing
      → IsIntact io r.state
      → n ≤ length (leading (future io r))
      → ExactTold n (leading (future io r)) (read_exact n n r)
  unfolding read_exact
  read_exact_lem n r willing sound enough =
      rw (intact-unless_poisoned n n r.upstream r.state sound)
        (read_loop_lem n n [] r willing sound (omega arith) (omega arith) (omega (arith, enough)))
