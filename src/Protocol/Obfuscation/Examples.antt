-- ===== src/Protocol/Obfuscation/Examples.antt =====
-- A handshake under sample primitives, and drawn nonces.
use v3mtp.Prelude.{
  ℕ, zero, suc, ◌+◌, ◌%◌, ◌<◌, ◌≡◌, refl, arith, true, false, List, [], ◌∷◌, none, length, byte_at,
  replicate, ◌==◌, if◌then◌else◌,
}
use v3mtp.Protocol.Constants.{secure, from_bytes, to_bytes}
use v3mtp.Crypto.Ctr.{apply_keystream}
use v3mtp.Protocol.Obfuscation.{Primitives, try_secret, is_valid_nonce}
use v3mtp.Protocol.Obfuscation.Handshake.{sealed, tail_of}

abbrev sample_primitives : Primitives
sample_primitives = record {
  sha256 = λ bs. length bs % 256 ∷ [];
  keystream = λ key iv i. (i + byte_at key 0) % 256;
  keystream-byte = λ key iv i. omega arith;
}

abbrev clear : List ℕ
clear = replicate 56 9

abbrev bob_handshake : List ℕ
bob_handshake =
    sealed sample_primitives clear (5 ∷ 6 ∷ []) (tail_of sample_primitives secure 2 (7 ∷ 7 ∷ []))

alice_refused : try_secret sample_primitives bob_handshake (5 ∷ []) ≡ none
unfolding try_secret apply_keystream from_bytes to_bytes
alice_refused = refl

abbrev draws : ℕ → List ℕ
draws i = if i == 0 then replicate 64 0xef else replicate 64 0x42

first_refused : (k : ℕ) → k < 1 → is_valid_nonce (draws (0 + k)) ≡ false
unfolding is_valid_nonce
first_refused zero h = refl
first_refused (suc k) h = absurd (omega arith)

second_valid : is_valid_nonce (draws 1) ≡ true
unfolding is_valid_nonce
second_valid = refl
