-- ===== src/Stream/CryptoStream/Reader/Exact.antt =====
-- `read_exact_decrypt` over an upstream that always answers: it reads what was asked for, or finds
-- the end of the input.
use v3mtp.Prelude.{
  ℕ, zero, suc, ◌+◌, ◌-◌, ◌≤◌, ◌<◌, ◌≡◌, inl, inr, refl, sym, ap, ◌∙◌, arith, true, false, List, [],
  ◌++◌, append_assoc, Result, ok, err, leb, Option, none, some, length, length-append, is_empty,
  is_empty_nil, is_empty_pos, Bool-cases, leb→le, leb_false→lt,
}
use mathlib.Core.Path.{subst}
use v3mtp.Stream.Io.{IoError, unexpected_eof, Poll, pending, failed, ready, AsyncRead}
use v3mtp.Stream.TlsStream.Reader.Exact.{Willing}
use v3mtp.Stream.CryptoStream.Reader.{
  CryptoReaderState, idle, yielding, poisoned, take_yielding, CryptoReader, poll_read, read_loop,
  exact_from, read_exact_decrypt,
}
use v3mtp.Stream.CryptoStream.Reader.Polls.{
  IsSound, to_come, waiting, PollTold, poll_read_lem, take_yielding_lem,
}
use v3mtp.Crypto.Ctr.{apply_keystream}

module _ (io : AsyncRead) (stream : ℕ → ℕ) where
  -- Exactly `n` bytes, and then what is left of `before`; or there were fewer.
  abbrev pub ExactTold : ℕ → List ℕ → Option (Result IoError (List ℕ) × CryptoReader io) → Type 0
  ExactTold n before none = ⊥
  ExactTold n before (some (err e, r)) = (e ≡ unexpected_eof) × (length before < n)
  ExactTold n before (some (ok bytes, r)) =
      (length bytes ≡ n) × ((before ≡ bytes ++ to_come io stream r) × IsSound r.state)

  module _ (fuel n : ℕ) (result : List ℕ) (r : CryptoReader io) where
    loop_full :
        leb n (length result) ≡ true
        → read_loop io stream (suc fuel) n result r ≡ some (ok result, r)
    unfolding read_loop
    loop_full full = rw (full, read_loop)

    module _ (got : List ℕ) (more : leb n (length result) ≡ false)
        (e : (poll_read io stream (n - length result) r).0 ≡ ready got) where
      loop_ends :
          is_empty got ≡ true
          → read_loop io stream (suc fuel) n result r
            ≡ some (err unexpected_eof, (poll_read io stream (n - length result) r).1)
      unfolding read_loop
      loop_ends over = rw (more, e, over, read_loop)

      loop_grows :
          is_empty got ≡ false
          → read_loop io stream (suc fuel) n result r
            ≡ read_loop io stream fuel n
                (result ++ got)
                (poll_read io stream (n - length result) r).1
      unfolding read_loop
      loop_grows some_read = rw (more, e, some_read, read_loop)

  -- Over an upstream that always answers, so does the reader.
  willing_ready :
      (room : ℕ) (before : List ℕ) (out : Poll (List ℕ)) (r : CryptoReader io)
      → Willing io
      → PollTold io stream room before (out, r)
      → (got : List ℕ) × ((out ≡ ready got) × PollTold io stream room before (ready got, r))
  willing_ready room before pending r willing told = absurd (willing.0 told.0)
  willing_ready room before (failed e) r willing told = absurd (willing.1 e told.0)
  willing_ready room before (ready got) r willing told = (got, (refl, told))

  read_loop_lem :
      (fuel n : ℕ) (result : List ℕ) (r : CryptoReader io)
      → Willing io
      → IsSound r.state
      → length result ≤ n
      → n < length result + fuel
      → ExactTold n (result ++ to_come io stream r) (read_loop io stream fuel n result r)
  read_loop_lem zero n result r willing sound small few = absurd (omega (arith, small, few))
  read_loop_lem (suc fuel) n result r willing sound small few =
      elim (Bool-cases (leb n (length result))) [
        | inl full ↦
            rw (loop_full fuel n result r full)
              (omega (arith, small, leb→le n (length result) full), (refl, sound))
        | inr more ↦
            let room = n - length result in
            let short : length result < n = leb_false→lt n (length result) more in
            let p = poll_read io stream room r in
            let (got, (e, (law, sound'))) =
              willing_ready room (to_come io stream r) p.0 p.1 willing
                (poll_read_lem io stream room r sound) in
            elim (Bool-cases (is_empty got)) [
              | inl over ↦ rw (loop_ends fuel n result r got more e over) (
                refl,
                elim (law.1.1 (is_empty_nil got over)) [
                  | inl no_room ↦ absurd (omega (arith, no_room, short))
                  | inr at_end ↦
                      omega
                        (arith, short, length-append result (to_come io stream r), ap length at_end)
                ],
              )
              | inr some_read ↦
                  rw
                    (
                      loop_grows fuel n result r got more e some_read,
                      ap (λ xs. result ++ xs) law.0
                          ∙ sym (append_assoc result got (to_come io stream p.1)),
                    )
                    (read_loop_lem fuel n (result ++ got) p.1 willing sound'
                      (omega (arith, short, law.1.0, length-append result got))
                      (omega (arith, few, length-append result got, is_empty_pos got some_read)))
            ]
      ]

  -- From any state that has not failed.
  from_told :
      (n : ℕ) (r : CryptoReader io) (s : CryptoReaderState)
      → r.state ≡ s
      → Willing io
      → IsSound s
      → ExactTold n
          (waiting s ++ apply_keystream stream r.decryptor (io.rest r.upstream))
          (exact_from io stream (suc n) n r s)
  from_told n r idle is willing sound =
      subst
        (λ s.
          ExactTold n (waiting s ++ apply_keystream stream r.decryptor (io.rest r.upstream))
            (read_loop io stream (suc n) n [] r))
        is
        (read_loop_lem (suc n) n [] r willing (subst IsSound (sym is) tt) (omega arith)
          (omega arith))
  from_told n r (poisoned e) is willing sound = absurd sound
  from_told n r (yielding y) is willing sound =
      let t = take_yielding_lem n y in
      let after = apply_keystream stream r.decryptor (io.rest r.upstream) in
      rw
        (ap (λ xs. xs ++ after) t.0
          ∙ append_assoc (take_yielding n y).0 (waiting (take_yielding n y).1) after)
        (read_loop_lem (suc n) n (take_yielding n y).0 (record r { state = (take_yielding n y).1 })
          willing t.1.1 t.1.0 (omega arith))

  -- Over an upstream that is never pending and never fails, at most `n + 1` polls read exactly the next
  -- `n` bytes of plaintext, and the rest is still to come; where fewer are to come, the
  -- end of the input is reported, and nothing else.
  pub read_exact_decrypt_lem :
      (n : ℕ) (r : CryptoReader io)
      → Willing io
      → IsSound r.state
      → ExactTold n (to_come io stream r) (read_exact_decrypt io stream (suc n) n r)
  unfolding read_exact_decrypt
  read_exact_decrypt_lem n r willing sound = from_told n r r.state refl willing sound
