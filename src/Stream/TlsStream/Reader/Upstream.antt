-- ===== src/Stream/TlsStream/Reader/Upstream.antt =====
-- A `FakeTlsReader` as the upstream of another stream: over an upstream that never fails, where only
-- data is to come, it keeps the contract of `AsyncRead`.
use v3mtp.Prelude.{
  ℕ, ◌≡◌, inl, inr, sym, ap, ap₂, ◌∙◌, arith, List, [], ◌∷◌, ◌++◌, map, Option, none, some,
}
use mathlib.Core.Path.{subst}
use v3mtp.Stream.Io.{IoError, Poll, pending, failed, ready, AsyncRead, Reads}
use v3mtp.Stream.TlsStream.{FakeTlsReader}
use v3mtp.Stream.TlsStream.Decode.{Event, byte, closed, broken}
use v3mtp.Stream.TlsStream.Reader.{Fails, Waits, WaitsBetween-Waits, FailsBetween-Fails}
use v3mtp.Stream.TlsStream.Reader.Accounts.{future, IsIntact}
use v3mtp.Stream.TlsStream.Reader.Polls.{poll_read, PollTold, poll_read-PollTold}
use v3mtp.Stream.TlsStream.Reader.Exact.{Willing, leading, leading-map}

-- No alert and no error is to come.
abbrev pub IsPlain : List Event → Type 0
IsPlain [] = Unit
IsPlain (byte b ∷ es) = IsPlain es
IsPlain (closed ∷ es) = ⊥
IsPlain (broken e ∷ es) = ⊥

rest-IsPlain : (bytes : List ℕ) (es : List Event) → IsPlain (map byte bytes ++ es) → IsPlain es
rest-IsPlain [] es p = p
rest-IsPlain (b ∷ bytes) es p = rest-IsPlain bytes es p

pub map-IsPlain : (bytes : List ℕ) → IsPlain (map byte bytes ++ [])
map-IsPlain [] = tt
map-IsPlain (b ∷ bytes) = map-IsPlain bytes

module _ (io : AsyncRead) (steady : (e : IoError) → Fails io e → ⊥) where
  pub record TlsInput : Type 0 where
    pub reader : FakeTlsReader io
    pub intact : IsIntact io reader.state
    pub plain : IsPlain (future io reader)

  pub answer-IsPlain :
      (start : io.Input) (room : ℕ) (before : List Event) (bytes : List ℕ) (r : FakeTlsReader io)
      → IsPlain before
      → PollTold io start room before (some (ready bytes, r))
      → IsPlain (future io r) × Reads room (leading before) (leading (future io r)) (ready bytes)
  answer-IsPlain start room before bytes r p told = elim told.1 [
    | inl h ↦ (
      rest-IsPlain bytes (future io r) (subst IsPlain h.0 p),
      (ap leading h.0 ∙ leading-map bytes (future io r), (h.1.1, λ none_. inl (h.1.0 none_))),
    )
    | inr h ↦ elim h.1 [
      | inl alert ↦ absurd (subst IsPlain alert p)
      | inr over ↦ (
        subst IsPlain (sym over.1) tt,
        (
          ap leading over.0 ∙ sym (ap₂ (λ xs es. xs ++ leading es) h.0 over.1),
          (rw h.0 (omega arith), λ _. inr (ap leading over.0)),
        ),
      )
    ]
  ]

  pub never_fails :
      (start : io.Input) (room : ℕ) (before : List Event) (e : IoError) (r : FakeTlsReader io)
      → IsPlain before
      → PollTold io start room before (some (failed e, r))
      → ⊥
  never_fails start room before e r p told = elim told.1.1 [
    | inl h ↦ subst IsPlain h p
    | inr h ↦ steady e (FailsBetween-Fails io h)
  ]

  -- The answer, and what is left.
  abbrev pub tls_answer :
      (start : io.Input) (room : ℕ) (before : List Event)
      (result : Option (Poll (List ℕ) × FakeTlsReader io))
      → IsPlain before
      → PollTold io start room before result
      → Poll (List ℕ) × TlsInput
  tls_answer start room before none p told = absurd told
  tls_answer start room before (some (pending, r)) p told =
      (pending, record { reader = r; intact = told.0; plain = subst IsPlain told.1.0 p })
  tls_answer start room before (some (ready bytes, r)) p told = (
    ready bytes,
    record {
      reader = r;
      intact = told.0;
      plain = (answer-IsPlain start room before bytes r p told).0;
    },
  )
  tls_answer start room before (some (failed e, r)) p told =
      absurd (never_fails start room before e r p told)

  pub tls_answer-Reads :
      (start : io.Input) (room : ℕ) (before : List Event)
      (result : Option (Poll (List ℕ) × FakeTlsReader io)) (p : IsPlain before)
      (told : PollTold io start room before result)
      → let a = tls_answer start room before result p told in
        Reads room (leading before) (leading (future io a.1.reader)) a.0
  tls_answer-Reads start room before none p told = absurd told
  tls_answer-Reads start room before (some (pending, r)) p told = ap leading told.1.0
  tls_answer-Reads start room before (some (ready bytes, r)) p told =
      (answer-IsPlain start room before bytes r p told).1
  tls_answer-Reads start room before (some (failed e, r)) p told =
      absurd (never_fails start room before e r p told)

  -- What it delivers is the data of the records.
  abbrev pub fake_tls_reader : AsyncRead
  fake_tls_reader = record {
    Input = TlsInput;
    poll_read = λ room i.
        tls_answer i.reader.upstream room (future io i.reader) (poll_read io room i.reader) i.plain
          (poll_read-PollTold io room i.reader i.intact);
    rest = λ i. leading (future io i.reader);
    reads = λ room i.
        tls_answer-Reads i.reader.upstream room (future io i.reader) (poll_read io room i.reader)
          i.plain (poll_read-PollTold io room i.reader i.intact);
  }

  tls_waits :
      (start : io.Input) (room : ℕ) (before : List Event)
      (result : Option (Poll (List ℕ) × FakeTlsReader io)) (p : IsPlain before)
      (told : PollTold io start room before result)
      → (tls_answer start room before result p told).0 ≡ pending
      → Waits io
  tls_waits start room before none p told e = absurd told
  tls_waits start room before (some (pending, r)) p told e = WaitsBetween-Waits io told.1.1
  tls_waits start room before (some (ready bytes, r)) p told e = absurd (ground (arith, e))
  tls_waits start room before (some (failed k, r)) p told e =
      absurd (never_fails start room before k r p told)

  tls_steady :
      (start : io.Input) (room : ℕ) (before : List Event)
      (result : Option (Poll (List ℕ) × FakeTlsReader io)) (p : IsPlain before)
      (told : PollTold io start room before result) (k : IoError)
      → (tls_answer start room before result p told).0 ≡ failed k
      → ⊥
  tls_steady start room before none p told k e = absurd told
  tls_steady start room before (some (pending, r)) p told k e = ground (arith, e)
  tls_steady start room before (some (ready bytes, r)) p told k e = ground (arith, e)
  tls_steady start room before (some (failed x, r)) p told k e =
      never_fails start room before x r p told

  -- Over an upstream that always answers, it does.
  pub fake_tls_reader-Willing : Willing io → Willing fake_tls_reader
  fake_tls_reader-Willing willing = (
    λ w.
        let (room, (i, e)) = w in
        willing.0 (
          tls_waits i.reader.upstream room (future io i.reader) (poll_read io room i.reader) i.plain
            (poll_read-PollTold io room i.reader i.intact) e),
    λ k w.
        let (room, (i, e)) = w in
        tls_steady i.reader.upstream room (future io i.reader) (poll_read io room i.reader) i.plain
          (poll_read-PollTold io room i.reader i.intact) k e,
  )
