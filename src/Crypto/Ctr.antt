-- ===== src/Crypto/Ctr.antt =====
-- `AesCtr` of src/crypto/aes.rs. The keystream of a key and a counter, byte by byte, is the crates'
-- and an argument; what is left of the cipher's state is the position in that stream.
use v3mtp.Prelude.{
  ℕ, suc, ◌+◌, ◌<◌, ◌≡◌, refl, ap, ap₂, ◌∙◌, arith, List, [], ◌∷◌, ◌++◌, length, bit_xor,
  bit_xor_cancel, All, IsByte,
}

-- `apply_keystream`, from position `i` of the stream on.
unfoldable pub apply_keystream : (ℕ → ℕ) → ℕ → List ℕ → List ℕ
apply_keystream stream i [] = []
apply_keystream stream i (b ∷ bs) = bit_xor b (stream i) ∷ apply_keystream stream (i + 1) bs

module _ (stream : ℕ → ℕ) where
  pub length-apply_keystream :
      (i : ℕ) (xs : List ℕ) → length (apply_keystream stream i xs) ≡ length xs
  unfolding apply_keystream
  length-apply_keystream i [] = refl
  length-apply_keystream i (x ∷ xs) = ap suc (length-apply_keystream (i + 1) xs)

  -- The position goes on by what was encrypted.
  pub apply_keystream-append :
      (i : ℕ) (xs ys : List ℕ)
      → apply_keystream stream i (xs ++ ys)
        ≡ apply_keystream stream i xs ++ apply_keystream stream (i + length xs) ys
  unfolding apply_keystream
  apply_keystream-append i [] ys = ap (λ k. apply_keystream stream k ys) (omega arith)
  apply_keystream-append i (x ∷ xs) ys =
      ap (λ zs. bit_xor x (stream i) ∷ zs)
        (apply_keystream-append (i + 1) xs ys
          ∙ ap (λ k. apply_keystream stream (i + 1) xs ++ apply_keystream stream k ys)
              (shift i (length xs)))
    where
      shift : (i n : ℕ) → i + 1 + n ≡ i + suc n
      shift i n = omega arith

  -- The same stream decrypts.
  pub apply_keystream_cancel :
      (i : ℕ) (xs : List ℕ)
      → ((k : ℕ) → stream k < 256)
      → All IsByte xs
      → apply_keystream stream i (apply_keystream stream i xs) ≡ xs
  unfolding apply_keystream
  apply_keystream_cancel i [] small bytes = refl
  apply_keystream_cancel i (x ∷ xs) small bytes =
      ap₂ ◌∷◌ (bit_xor_cancel x (stream i) bytes.0 (small i))
        (apply_keystream_cancel (i + 1) xs small bytes.1)
