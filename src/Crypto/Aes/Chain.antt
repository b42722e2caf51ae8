-- ===== src/Crypto/Aes/Chain.antt =====
-- The chaining of the cipher over whole blocks: decryption undoes encryption, and the loops that
-- work in place do what the loops over chunks do.
use v3mtp.Prelude.{
  ℕ, zero, suc, ◌*◌, ◌≡◌, refl, sym, ap, ap₂, List, [], ◌∷◌, arith, length, take, drop,
  length-append, length-take, length-drop, take-append-drop, take-length-append, drop-length-append,
  bit_xor_cancel, bit_xor_byte, All, All-append, All-take, All-drop, IsByte,
}
use v3mtp.Crypto.Aes.{BlockCipher, IsBlock, block_size, xor_blocks, encrypt_chunks, decrypt_chunks}

pub length-xor_blocks :
    (xs ys : List ℕ) → length xs ≡ length ys → length (xor_blocks xs ys) ≡ length xs
unfolding xor_blocks
length-xor_blocks [] ys e = refl
length-xor_blocks (x ∷ xs) [] e = absurd (omega arith)
length-xor_blocks (x ∷ xs) (y ∷ ys) e = ap suc (length-xor_blocks xs ys (omega arith))

pub xor_blocks-bytes :
    (xs ys : List ℕ) → All IsByte xs → All IsByte ys → All IsByte (xor_blocks xs ys)
unfolding xor_blocks
xor_blocks-bytes [] ys h k = tt
xor_blocks-bytes (x ∷ xs) [] h k = tt
xor_blocks-bytes (x ∷ xs) (y ∷ ys) h k = (bit_xor_byte x y h.0 k.0, xor_blocks-bytes xs ys h.1 k.1)

pub xor_blocks-IsBlock : (xs ys : List ℕ) → IsBlock xs → IsBlock ys → IsBlock (xor_blocks xs ys)
xor_blocks-IsBlock xs ys h k =
    (omega (arith, length-xor_blocks xs ys (omega arith)), xor_blocks-bytes xs ys h.1 k.1)

pub xor_blocks_cancel :
    (xs ys : List ℕ)
    → length xs ≡ length ys
    → All IsByte xs
    → All IsByte ys
    → xor_blocks (xor_blocks xs ys) ys ≡ xs
unfolding xor_blocks
xor_blocks_cancel [] ys e h k = refl
xor_blocks_cancel (x ∷ xs) [] e h k = absurd (omega arith)
xor_blocks_cancel (x ∷ xs) (y ∷ ys) e h k =
    ap₂ ◌∷◌ (bit_xor_cancel x y h.0 k.0) (xor_blocks_cancel xs ys (omega arith) h.1 k.1)

-- The first block of an input of `suc n` blocks, and the rest.
pub first-IsBlock :
    (n : ℕ) (input : List ℕ)
    → length input ≡ suc n * block_size
    → All IsByte input
    → IsBlock (take block_size input)
first-IsBlock n input e h =
    (omega (arith, length-take block_size input), All-take IsByte block_size input h)

module _ (cipher : BlockCipher) where
  open cipher use {
    Schedule, encrypt_block, decrypt_block, encrypt_block-IsBlock, decrypt_block-IsBlock,
    decrypt_block-encrypt_block,
  }

  -- The block that a round of the encryption writes.
  abbrev pub sealed : Schedule → List ℕ → List ℕ → List ℕ
  sealed k prev input = encrypt_block k (xor_blocks (take block_size input) prev)

  pub sealed-IsBlock :
      (n : ℕ) (k : Schedule) (prev input : List ℕ)
      → length input ≡ suc n * block_size
      → All IsByte input
      → IsBlock prev
      → IsBlock (sealed k prev input)
  sealed-IsBlock n k prev input e h p =
      encrypt_block-IsBlock k _ (xor_blocks-IsBlock _ prev (first-IsBlock n input e h) p)

  opened-sealed :
      (n : ℕ) (k : Schedule) (prev input : List ℕ)
      → length input ≡ suc n * block_size
      → All IsByte input
      → IsBlock prev
      → xor_blocks (decrypt_block k (sealed k prev input)) prev ≡ take block_size input
  opened-sealed n k prev input e h p =
      let first = first-IsBlock n input e h in
      rw (decrypt_block-encrypt_block k _ (xor_blocks-IsBlock _ prev first p))
        (xor_blocks_cancel (take block_size input) prev (omega (arith, first.0, p.0)) first.1 p.1)

  pub decrypt_chunks-encrypt_chunks :
      (n : ℕ) (k : Schedule) (prev input : List ℕ)
      → length input ≡ n * block_size
      → All IsByte input
      → IsBlock prev
      → decrypt_chunks cipher n k prev (encrypt_chunks cipher n k prev input) ≡ input
  unfolding encrypt_chunks decrypt_chunks
  decrypt_chunks-encrypt_chunks zero k prev [] e h p = refl
  decrypt_chunks-encrypt_chunks zero k prev (x ∷ input) e h p = absurd (omega arith)
  decrypt_chunks-encrypt_chunks (suc n) k prev input e h p =
      let block = sealed k prev input in
      let whole = sealed-IsBlock n k prev input e h p in
      let left = encrypt_chunks cipher n k block (drop block_size input) in
      let ih =
        decrypt_chunks-encrypt_chunks n k block (drop block_size input)
          (omega (arith, length-drop block_size input)) (All-drop IsByte block_size input h)
          whole in
      rw
        (
          take-length-append block_size block left (sym whole.0),
          drop-length-append block_size block left (sym whole.0),
          ih,
          opened-sealed n k prev input e h p,
        )
        (take-append-drop block_size input)

  pub length-encrypt_chunks :
      (n : ℕ) (k : Schedule) (prev input : List ℕ)
      → length input ≡ n * block_size
      → All IsByte input
      → IsBlock prev
      → length (encrypt_chunks cipher n k prev input) ≡ n * block_size
  unfolding encrypt_chunks
  length-encrypt_chunks zero k prev input e h p = omega arith
  length-encrypt_chunks (suc n) k prev input e h p =
      let block = sealed k prev input in
      let whole = sealed-IsBlock n k prev input e h p in
      let rest = drop block_size input in
      omega (
        arith,
        whole.0,
        length-append block (encrypt_chunks cipher n k block rest),
        length-encrypt_chunks n k block rest (omega (arith, length-drop block_size input))
            (All-drop IsByte block_size input h) whole,
      )

  pub encrypt_chunks-bytes :
      (n : ℕ) (k : Schedule) (prev input : List ℕ)
      → length input ≡ n * block_size
      → All IsByte input
      → IsBlock prev
      → All IsByte (encrypt_chunks cipher n k prev input)
  unfolding encrypt_chunks
  encrypt_chunks-bytes zero k prev input e h p = tt
  encrypt_chunks-bytes (suc n) k prev input e h p =
      let whole = sealed-IsBlock n k prev input e h p in
      All-append IsByte _ _ whole.1 (
        encrypt_chunks-bytes n k _ (drop block_size input)
          (omega (arith, length-drop block_size input)) (All-drop IsByte block_size input h) whole)
