-- ===== src/Crypto/Random/Laws.antt =====
-- The lengths and bounds of what the generator hands out, and that it hands out one stream.
use v3mtp.Prelude.{
  ℕ, zero, suc, ◌-◌, ◌<◌, ◌≤◌, min, ◌≡◌, refl, List, [], ◌∷◌, some, arith, length, take, drop,
  length-append, length-take, get_elem?,
}
use v3mtp.Crypto.Random.{Source, SecureRandom, refill, fill_loop, bytes, range, choose, chunk_size}

get_elem?-some {ℓ} :
    {A : Type ℓ} (xs : List A) (i : ℕ) → i < length xs → (a : A) × (get_elem? xs i ≡ some a)
get_elem?-some [] i h = absurd (omega arith)
get_elem?-some (x ∷ xs) zero h = (x, refl)
get_elem?-some (x ∷ xs) (suc i) h = get_elem?-some xs i (omega arith)

module _ (source : Source) where
  open source use {gen_range-lt, length-chunk}

  refill_pos : (inner : SecureRandom source) → 0 < length (refill source inner).buffer
  unfolding refill
  refill_pos inner = ground (arith, length-chunk chunk_size inner.rng)

  length-fill_loop :
      (fuel left : ℕ) (inner : SecureRandom source)
      → left ≤ fuel
      → length (fill_loop source fuel left inner).0 ≡ left
  unfolding fill_loop
  length-fill_loop zero left inner h = omega arith
  length-fill_loop (suc fuel) left inner h =
      let full = refill source inner in
      let n = min left (length full.buffer) in
      let next = record full { buffer = drop n full.buffer } in
      ground (
        arith,
        refill_pos inner,
        length-fill_loop fuel (left - n) next (omega (arith, refill_pos inner)),
        length-append (take n full.buffer) (fill_loop source fuel (left - n) next).0,
        length-take n full.buffer,
      )

  -- `bytes` returns as many bytes as were asked for.
  pub length-bytes :
      (len : ℕ) (inner : SecureRandom source) → length (bytes source len inner).0 ≡ len
  unfolding bytes
  length-bytes len inner = length-fill_loop len len inner (omega arith)

  -- `range` stays below its bound.
  pub range-lt :
      (max : ℕ) (inner : SecureRandom source) → 0 < max → (range source max inner).0 < max
  unfolding range
  range-lt max inner h = ground (arith, gen_range-lt max inner.rng)

  -- `choose` misses only on the empty slice.
  pub choose-ne-none {ℓ} :
      {A : Type ℓ} (slice : List A) (inner : SecureRandom source)
      → 0 < length slice
      → (a : A) × ((choose source slice inner).0 ≡ some a)
  unfolding choose
  choose-ne-none [] inner h = absurd (omega arith)
  choose-ne-none (a ∷ slice) inner h = get_elem?-some (a ∷ slice) _ (range-lt _ inner h)
