-- ===== src/Crypto/Random.antt =====
-- src/crypto/random.rs: the generator behind padding and nonces. The `rand` generator and the
-- stream cipher over its output are third-party code, so they are the parameter `Source`.
pub mod Laws
pub mod Sample
mod Examples
use v3mtp.Prelude.{
  ℕ, zero, suc, ◌+◌, ◌-◌, ◌<◌, ◌≤◌, min, ◌≡◌, Bool, List, [], ◌++◌, Option, none, some, arith,
  length, take, drop, is_empty, get_elem?, ◌==◌, if◌then◌else◌,
}

-- `gen_range` draws from `0..max`; `chunk n` fills `n` bytes and runs the cipher over them.
pub record Source : Type 1 where
  pub State : Type 0
  pub gen_range : ℕ → State → ℕ × State
  pub gen_range-lt : (max : ℕ) (s : State) → 0 < max → (gen_range max s).0 < max
  pub chunk : ℕ → State → List ℕ × State
  pub length-chunk : (n : ℕ) (s : State) → length (chunk n s).0 ≡ n

abbrev pub chunk_size : ℕ
chunk_size = 512

module _ (source : Source) where
  open source use {State, gen_range, chunk, gen_range-lt, length-chunk}

  pub record SecureRandom : Type 0 where
    pub rng : State
    pub buffer : List ℕ

  -- The refill at the head of the loop of `fill`.
  unfoldable pub refill : SecureRandom → SecureRandom
  refill inner =
      if is_empty inner.buffer
      then record { rng = (chunk chunk_size inner.rng).1; buffer = (chunk chunk_size inner.rng).0 }
      else inner

  -- `left` is `out.len() - written`; each round takes a byte at least, so `left` rounds serve.
  unfoldable pub fill_loop : ℕ → ℕ → SecureRandom → List ℕ × SecureRandom
  fill_loop zero left inner = ([], inner)
  fill_loop (suc fuel) left inner =
      let full = refill inner in
      let n = min left (length full.buffer) in
      let rest = fill_loop fuel (left - n) (record full { buffer = drop n full.buffer }) in
      if left == 0 then ([], inner) else (take n full.buffer ++ rest.0, rest.1)

  unfoldable pub bytes : ℕ → SecureRandom → List ℕ × SecureRandom
  unfolding fill_loop refill
  bytes len inner = fill_loop len len inner

  unfoldable pub range : ℕ → SecureRandom → ℕ × SecureRandom
  range max inner =
      if max == 0
      then (0, inner)
      else ((gen_range max inner.rng).0, record inner { rng = (gen_range max inner.rng).1 })

  unfoldable pub choose {ℓ} : {A : Type ℓ} → List A → SecureRandom → Option A × SecureRandom
  choose slice inner =
      if is_empty slice
      then (none, inner)
      else (get_elem? slice (range (length slice) inner).0, (range (length slice) inner).1)
