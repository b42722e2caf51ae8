-- ===== src/Crypto/Aes/Sample.antt =====
-- A block cipher to run the theorems on: it adds the first byte of the key to every byte.
use v3mtp.Prelude.{
  ℕ, zero, suc, ◌+◌, ◌-◌, ◌%◌, ◌<◌, ◌≡◌, refl, ap, ap₂, arith, List, [], ◌∷◌, length, replicate,
  All, IsByte,
}
use v3mtp.Crypto.Aes.{BlockCipher}

abbrev first_byte : List ℕ → ℕ
first_byte [] = 0
first_byte (b ∷ bs) = b

abbrev shift : ℕ → List ℕ → List ℕ
shift n [] = []
shift n (b ∷ bs) = (b + n) % 256 ∷ shift n bs

pub shift-IsBlock :
    (n : ℕ) (bs : List ℕ) → (length (shift n bs) ≡ length bs) × All IsByte (shift n bs)
shift-IsBlock n [] = (refl, tt)
shift-IsBlock n (b ∷ bs) = let ih = shift-IsBlock n bs in (ap suc ih.0, (omega arith, ih.1))

pub shift-back : (n : ℕ) (bs : List ℕ) → All IsByte bs → shift (256 - n % 256) (shift n bs) ≡ bs
shift-back n [] h = refl
shift-back n (b ∷ bs) h = ap₂ ◌∷◌ (omega (arith, h.0)) (shift-back n bs h.1)

abbrev pub shift_cipher : BlockCipher
shift_cipher = record {
  Schedule = ℕ;
  schedule = first_byte;
  encrypt_block = shift;
  decrypt_block = λ n bs. shift (256 - n % 256) bs;
  encrypt_block-IsBlock =
      λ n bs h. let same = shift-IsBlock n bs in (omega (arith, same.0, h.0), same.1);
  decrypt_block-IsBlock =
      λ n bs h. let same = shift-IsBlock (256 - n % 256) bs in (omega (arith, same.0, h.0), same.1);
  decrypt_block-encrypt_block = λ n bs h. shift-back n bs h.1;
}

pub replicate-bytes : (n b : ℕ) → b < 256 → All IsByte (replicate n b)
replicate-bytes zero b h = tt
replicate-bytes (suc n) b h = (h, replicate-bytes n b h)
