-- ===== src/Crypto/Random/Sample.antt =====
-- A generator that counts, for tests.
use v3mtp.Prelude.{ℕ, ◌+◌, ◌%◌, ◌<◌, [], replicate, length-replicate, arith}
use v3mtp.Crypto.Random.{Source, SecureRandom}

pub sample_range-lt : (max s : ℕ) → 0 < max → s % max < max
sample_range-lt max s h = omega arith

abbrev pub sample : Source
sample = record {
  State = ℕ;
  gen_range = λ max s. (s % max, s + 1);
  gen_range-lt = sample_range-lt;
  chunk = λ n s. (replicate n (s % 256), s + 1);
  length-chunk = λ n s. length-replicate n (s % 256);
}

abbrev pub sample_rng : SecureRandom sample
sample_rng = record { rng = 7; buffer = [] }
