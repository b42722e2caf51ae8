-- ===== src/Stream/CryptoStream/Reader/Polls.antt =====
-- One poll of a `CryptoReader`: it delivers the decryption of what the upstream has to give, in order.
use v3mtp.Prelude.{
  ℕ, ◌≤◌, min, ◌≡◌, ◌⊎◌, inl, inr, refl, sym, ap, ◌∙◌, arith, false, List, [], ◌∷◌, ◌++◌, ◌==◌,
  ==_iff, leb→le, leb_false→lt, length, is_empty, is_empty_nil, drop-all, append_assoc, Bool-cases,
}
use mathlib.Core.Path.{subst}
use v3mtp.Stream.Io.{Poll, pending, failed, ready, AsyncRead, Reads}
use v3mtp.Stream.State.Yield
use v3mtp.Stream.State.Yield.{YieldBuffer, as_slice-copy_to, copy_to_some, length-copy_to}
use v3mtp.Stream.TlsStream.Reader.{Fails, Waits}
use v3mtp.Crypto.Ctr.{apply_keystream, apply_keystream-append, length-apply_keystream}
use v3mtp.Stream.CryptoStream.Reader.{
  CryptoReaderState, idle, yielding, poisoned, take_yielding, CryptoReader, after_read,
  poll_read_state, poll_read,
}

-- The stream has not failed, and where bytes are to be yielded there are some.
abbrev pub IsSound : CryptoReaderState → Type 0
IsSound idle = Unit
IsSound (yielding y) = Yield.is_empty y ≡ false
IsSound (poisoned e) = ⊥

abbrev pub waiting : CryptoReaderState → List ℕ
waiting (yielding y) = Yield.as_slice y
waiting _ = []

pub take_yielding_lem :
    (room : ℕ) (y : YieldBuffer)
    → (Yield.as_slice y ≡ (take_yielding room y).0 ++ waiting (take_yielding room y).1)
      × ((length (take_yielding room y).0 ≤ room) × IsSound (take_yielding room y).1)
take_yielding_lem room y =
    let n = min (Yield.remaining y) room in
    let c = Yield.copy_to n y in
    let fits : length c.0 ≤ room = omega (arith, length-copy_to n y) in
    elim (Bool-cases (Yield.is_empty c.1)) [
      | inl over ↦ rw over (
          (
            as_slice-copy_to n y
                ∙ ap (λ xs. c.0 ++ xs)
                    (drop-all c.1.position c.1.bytes (leb→le (length c.1.bytes) c.1.position over)),
            (fits, tt),
          ))
      | inr more ↦ rw more (as_slice-copy_to n y, (fits, more))
    ]

take_yielding_some :
    (room : ℕ) (y : YieldBuffer)
    → Yield.is_empty y ≡ false
    → (take_yielding room y).0 ≡ []
    → room ≡ 0
take_yielding_some room y more e =
    let some_left = leb_false→lt (length y.bytes) y.position more in
    omega (arith, some_left, copy_to_some (min (Yield.remaining y) room) y some_left e)

keystream_nil : (stream : ℕ → ℕ) (i : ℕ) (xs : List ℕ) → apply_keystream stream i xs ≡ [] → xs ≡ []
keystream_nil stream i [] e = refl
keystream_nil stream i (x ∷ xs) e =
    absurd (omega (arith, ap length e, length-apply_keystream stream i (x ∷ xs)))

keystream_ended :
    (stream : ℕ → ℕ) (room i : ℕ) (xs : List ℕ)
    → (room ≡ 0) ⊎ (xs ≡ [])
    → (room ≡ 0) ⊎ (apply_keystream stream i xs ≡ [])
unfolding apply_keystream
keystream_ended stream room i xs (inl h) = inl h
keystream_ended stream room i xs (inr h) = inr (ap (apply_keystream stream i) h)

module _ (io : AsyncRead) (stream : ℕ → ℕ) where
  open io use {Input, rest, reads}

  -- The plaintext that is still to come.
  abbrev pub to_come : CryptoReader io → List ℕ
  to_come r = waiting r.state ++ apply_keystream stream r.decryptor (rest r.upstream)

  -- What a poll of a sound reader does, where `before` was to come.
  abbrev pub PollTold : ℕ → List ℕ → Poll (List ℕ) × CryptoReader io → Type 0
  PollTold room before (pending, r) = Waits io × ((before ≡ to_come r) × IsSound r.state)
  PollTold room before (failed e, r) = Fails io e × (before ≡ to_come r)
  PollTold room before (ready got, r) = Reads room before (to_come r) (ready got) × IsSound r.state

  after_read_told :
      (room : ℕ) (r : CryptoReader io) (answer : Poll (List ℕ)) (u : Input)
      → r.state ≡ idle
      → io.poll_read room r.upstream ≡ (answer, u)
      → Reads room (rest r.upstream) (rest u) answer
      → PollTold room
          (apply_keystream stream r.decryptor (rest r.upstream))
          (after_read io stream answer u r)
  after_read_told room r pending u is e law =
      rw is
        ((room, (r.upstream, ap (λ p. p.0) e)), (ap (apply_keystream stream r.decryptor) law, tt))
  after_read_told room r (failed k) u is e law =
      ((room, (r.upstream, ap (λ p. p.0) e)), ap (apply_keystream stream r.decryptor) law)
  after_read_told room r (ready bytes) u is e law = elim (Bool-cases (is_empty bytes)) [
    | inl nothing ↦
        let got_none = is_empty_nil bytes nothing in
        let same : rest r.upstream ≡ rest u = law.0 ∙ ap (λ xs. xs ++ rest u) got_none in
        rw (nothing, is)
          (
            (
              ap (apply_keystream stream r.decryptor) same,
              (
                omega arith,
                λ _. keystream_ended stream room r.decryptor (rest r.upstream) (law.1.1 got_none),
              ),
            ),
            tt,
          )
    | inr some_read ↦
        rw (some_read, is)
          (
            (
              ap (apply_keystream stream r.decryptor) law.0
                  ∙ apply_keystream-append stream r.decryptor bytes (rest u),
              (
                omega (arith, law.1.0, length-apply_keystream stream r.decryptor bytes),
                λ none_.
                    keystream_ended stream room r.decryptor (rest r.upstream)
                      (law.1.1 (keystream_nil stream r.decryptor bytes none_)),
              ),
            ),
            tt,
          )
  ]

  state_told :
      (room : ℕ) (r : CryptoReader io) (s : CryptoReaderState)
      → r.state ≡ s
      → IsSound s
      → PollTold room (to_come r) (poll_read_state io stream room r s)
  state_told room r (poisoned e) is sound = absurd sound
  state_told room r (yielding y) is sound = elim (Bool-cases (room == 0)) [
    | inl nothing ↦
        rw (nothing, is) ((refl, (omega arith, λ _. inl ((==_iff room 0).0 nothing))), sound)
    | inr some_room ↦
        let t = take_yielding_lem room y in
        let after = apply_keystream stream r.decryptor (rest r.upstream) in
        rw (some_room, is)
          (
            (
              ap (λ xs. xs ++ after) t.0
                  ∙ append_assoc (take_yielding room y).0 (waiting (take_yielding room y).1) after,
              (t.1.0, λ none_. inl (take_yielding_some room y sound none_)),
            ),
            t.1.1,
          )
  ]
  state_told room r idle is sound = elim (Bool-cases (room == 0)) [
    | inl nothing ↦
        rw (nothing, is) ((refl, (omega arith, λ _. inl ((==_iff room 0).0 nothing))), tt)
    | inr some_room ↦
        let answer = io.poll_read room r.upstream in
        rw some_room (
          subst
            (λ s.
              PollTold room (waiting s ++ apply_keystream stream r.decryptor (rest r.upstream))
                (after_read io stream answer.0 answer.1 r))
            (sym is) (after_read_told room r answer.0 answer.1 is refl (reads room r.upstream)))
  ]

  pub poll_read_lem :
      (room : ℕ) (r : CryptoReader io)
      → IsSound r.state
      → PollTold room (to_come r) (poll_read io stream room r)
  unfolding poll_read
  poll_read_lem room r sound = state_told room r r.state refl sound
