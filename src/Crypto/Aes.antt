-- ===== src/Crypto/Aes.antt =====
-- `AesCbc` of src/crypto/aes.rs: chaining over a block cipher. The cipher itself is the `aes`
-- crate's, so it is the parameter `BlockCipher`. Clearing keys on drop has no counterpart.
pub mod Chain
pub mod Laws
pub mod Sequence
pub mod Sample
use v3mtp.Prelude.{
  ℕ, zero, suc, ◌+◌, ◌*◌, ◌/◌, ◌%◌, ◌<◌, ◌≡◌, Bool, List, [], ◌∷◌, ◌++◌, Result, ok, err, length,
  take, drop, is_empty, bit_xor, ◌==◌, if◌then◌else◌, All, IsByte,
}

abbrev pub block_size : ℕ
block_size = 16

abbrev pub IsBlock : List ℕ → Type 0
IsBlock b = (length b ≡ block_size) × All IsByte b

-- A key schedule is a value that the cipher makes from the key.
pub record BlockCipher : Type 1 where
  pub Schedule : Type 0
  pub schedule : List ℕ → Schedule
  pub encrypt_block : Schedule → List ℕ → List ℕ
  pub decrypt_block : Schedule → List ℕ → List ℕ
  pub encrypt_block-IsBlock : (k : Schedule) (b : List ℕ) → IsBlock b → IsBlock (encrypt_block k b)
  pub decrypt_block-IsBlock : (k : Schedule) (b : List ℕ) → IsBlock b → IsBlock (decrypt_block k b)
  pub decrypt_block-encrypt_block :
      (k : Schedule) (b : List ℕ) → IsBlock b → decrypt_block k (encrypt_block k b) ≡ b

pub record AesCbc : Type 0 where
  pub key : List ℕ
  pub iv : List ℕ

pub data CryptoError : Type 0 where
  not_aligned : ℕ → CryptoError
  invalid_key_length : ℕ → ℕ → CryptoError

unfoldable pub from_slices : List ℕ → List ℕ → Result CryptoError AesCbc
from_slices key iv =
    if length key == 32
    then (if length iv == 16
        then ok (record { key = key; iv = iv })
        else err (invalid_key_length 16 (length iv)))
    else err (invalid_key_length 32 (length key))

unfoldable pub xor_blocks : List ℕ → List ℕ → List ℕ
xor_blocks [] ys = []
xor_blocks (x ∷ xs) [] = []
xor_blocks (x ∷ xs) (y ∷ ys) = bit_xor x y ∷ xor_blocks xs ys

module _ (cipher : BlockCipher) where
  open cipher use {Schedule, schedule, encrypt_block, decrypt_block}

  -- The loop over `data.chunks(16)`; the first argument is the number of chunks.
  unfoldable pub encrypt_chunks : ℕ → Schedule → List ℕ → List ℕ → List ℕ
  encrypt_chunks zero k prev input = []
  encrypt_chunks (suc n) k prev input =
      let block = encrypt_block k (xor_blocks (take block_size input) prev) in
      block ++ encrypt_chunks n k block (drop block_size input)

  unfoldable pub decrypt_chunks : ℕ → Schedule → List ℕ → List ℕ → List ℕ
  decrypt_chunks zero k prev input = []
  decrypt_chunks (suc n) k prev input =
      let block = take block_size input in
      xor_blocks (decrypt_block k block) prev ++ decrypt_chunks n k block (drop block_size input)

  unfoldable pub encrypt : AesCbc → List ℕ → Result CryptoError (List ℕ)
  encrypt c input =
      if length input % block_size == 0
      then (if is_empty input
          then ok []
          else ok (encrypt_chunks (length input / block_size) (schedule c.key) c.iv input))
      else err (not_aligned (length input))

  unfoldable pub decrypt : AesCbc → List ℕ → Result CryptoError (List ℕ)
  decrypt c input =
      if length input % block_size == 0
      then (if is_empty input
          then ok []
          else ok (decrypt_chunks (length input / block_size) (schedule c.key) c.iv input))
      else err (not_aligned (length input))

  -- `data[i..i + 16]` and the store to it.
  abbrev block_at : ℕ → List ℕ → List ℕ
  block_at i buf = take block_size (drop i buf)

  abbrev store_block : ℕ → List ℕ → List ℕ → List ℕ
  store_block i block buf = take i buf ++ (block ++ drop block_size (drop i buf))

  -- The loops over `(0..data.len()).step_by(16)`, with the rounds that are left.
  unfoldable pub encrypt_from : ℕ → ℕ → Schedule → List ℕ → List ℕ → List ℕ
  encrypt_from zero i k prev buf = buf
  encrypt_from (suc n) i k prev buf =
      let block = encrypt_block k (xor_blocks (block_at i buf) prev) in
      encrypt_from n (i + block_size) k block (store_block i block buf)

  unfoldable pub decrypt_from : ℕ → ℕ → Schedule → List ℕ → List ℕ → List ℕ
  decrypt_from zero i k prev buf = buf
  decrypt_from (suc n) i k prev buf =
      let current = block_at i buf in
      decrypt_from n (i + block_size) k current
        (store_block i (xor_blocks (decrypt_block k current) prev) buf)

  unfoldable pub encrypt_in_place : AesCbc → List ℕ → Result CryptoError (List ℕ)
  encrypt_in_place c buf =
      if length buf % block_size == 0
      then (if is_empty buf
          then ok []
          else ok (encrypt_from (length buf / block_size) 0 (schedule c.key) c.iv buf))
      else err (not_aligned (length buf))

  unfoldable pub decrypt_in_place : AesCbc → List ℕ → Result CryptoError (List ℕ)
  decrypt_in_place c buf =
      if length buf % block_size == 0
      then (if is_empty buf
          then ok []
          else ok (decrypt_from (length buf / block_size) 0 (schedule c.key) c.iv buf))
      else err (not_aligned (length buf))
