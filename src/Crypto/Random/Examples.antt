-- ===== src/Crypto/Random/Examples.antt =====
-- Runs of the generator, and its theorems at concrete inputs.
use v3mtp.Prelude.{◌≡◌, refl, length, replicate}
use v3mtp.Crypto.Random.{bytes, range}
use v3mtp.Crypto.Random.Laws.{length-bytes}
use v3mtp.Crypto.Random.Sample.{sample, sample_rng}

range_seven : (range sample 3 sample_rng).0 ≡ 1
unfolding range
range_seven = refl

three_bytes : (bytes sample 3 sample_rng).0 ≡ replicate 3 7
unfolding bytes
three_bytes = refl

length-bytes_example : length (bytes sample 600 sample_rng).0 ≡ 600
length-bytes_example = length-bytes sample 600 sample_rng
