-- ===== src/Stream/TlsStream/Sample.antt =====
-- Upstreams for the examples.
use v3mtp.Prelude.{
  ℕ, zero, suc, ◌≡◌, ◌⊎◌, inl, inr, refl, sym, ap, arith, min, List, [], ◌∷◌, ◌++◌, Option, none,
  some, length, length-take, take, drop, take-append-drop,
}
use v3mtp.Stream.Io.{IoError, Poll, pending, failed, ready, AsyncRead, Reads, AsyncWrite}
use v3mtp.Stream.TlsStream.Reader.Exact.{Willing}

pub drip-Reads :
    (room : ℕ) (xs : List ℕ) → Reads room xs (drop (min room 3) xs) (ready (take (min room 3) xs))
drip-Reads room xs = (
  sym (take-append-drop (min room 3) xs),
  (omega (arith, length-take (min room 3) xs), ended room xs),
)
  where
    ended : (room : ℕ) (xs : List ℕ) → (take (min room 3) xs ≡ []) → (room ≡ 0) ⊎ (xs ≡ [])
    ended room [] e = inr refl
    ended room (x ∷ xs) e = inl (omega (arith, ap length e, length-take (min room 3) (x ∷ xs)))

-- Three bytes at a time.
abbrev pub drip : AsyncRead
drip = record {
  Input = List ℕ;
  poll_read = λ room xs. (ready (take (min room 3) xs), drop (min room 3) xs);
  rest = λ xs. xs;
  reads = drip-Reads;
}

pub drip-Willing : Willing drip
drip-Willing = ((λ w. never w.1.1), λ e f. never' e f.1.1)
  where
    never : {xs : List ℕ} → ready xs ≡ pending → ⊥
    never e = ground (arith, e)

    never' : {xs : List ℕ} (k : IoError) → ready xs ≡ failed k → ⊥
    never' k e = ground (arith, e)

abbrev pub bytes_left : List (Option ℕ) → List ℕ
bytes_left [] = []
bytes_left (none ∷ xs) = bytes_left xs
bytes_left (some b ∷ xs) = b ∷ bytes_left xs

abbrev pub stammer_poll : ℕ → List (Option ℕ) → Poll (List ℕ) × List (Option ℕ)
stammer_poll room [] = (ready [], [])
stammer_poll room (none ∷ xs) = (pending, xs)
stammer_poll zero (some b ∷ xs) = (ready [], some b ∷ xs)
stammer_poll (suc room) (some b ∷ xs) = (ready (b ∷ []), xs)

pub stammer-Reads :
    (room : ℕ) (xs : List (Option ℕ))
    → Reads room (bytes_left xs) (bytes_left (stammer_poll room xs).1) (stammer_poll room xs).0
stammer-Reads room [] = (refl, (omega arith, λ _. inr refl))
stammer-Reads room (none ∷ xs) = refl
stammer-Reads zero (some b ∷ xs) = (refl, (omega arith, λ _. inl refl))
stammer-Reads (suc room) (some b ∷ xs) =
    (refl, (omega arith, λ e. absurd (omega (arith, ap length e))))

-- A byte at a time, and pending wherever the list says `none`.
abbrev pub stammer : AsyncRead
stammer = record {
  Input = List (Option ℕ);
  poll_read = stammer_poll;
  rest = bytes_left;
  reads = stammer-Reads;
}

-- It takes four bytes at a time.
abbrev pub narrow : AsyncWrite
narrow = record {
  Output = List ℕ;
  poll_write = λ bytes xs. (ready (min (length bytes) 4), xs ++ take (min (length bytes) 4) bytes);
  poll_flush = λ xs. (ready tt, xs);
  poll_shutdown = λ xs. (ready tt, xs);
  sent = λ xs. xs;
  writes = λ bytes xs. (refl, omega arith);
  sent-poll_flush = λ xs. refl;
  sent-poll_shutdown = λ xs. refl;
}
