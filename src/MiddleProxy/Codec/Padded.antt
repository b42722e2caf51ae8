-- ===== src/MiddleProxy/Codec/Padded.antt =====
-- The padded CBC helpers: whole blocks, and their round trip.
use v3mtp.Prelude.{
  ℕ, zero, suc, ◌+◌, ◌-◌, ◌*◌, ◌/◌, ◌%◌, ◌≡◌, ◌∙◌, refl, sym, ap, List, ok, arith, length,
  length-append, All, All-append, IsByte,
}
use v3mtp.Crypto.Aes.{BlockCipher, AesCbc, IsBlock, block_size, encrypt_chunks}
use v3mtp.Crypto.Aes.Laws.{encrypt_in_place-chunks, decrypt_in_place-chunks}
use v3mtp.Crypto.Aes.Chain.{length-encrypt_chunks}
use v3mtp.MiddleProxy.Codec.{pad_from, padded, new_iv, cbc_encrypt_padded, cbc_decrypt_inplace}

length-pad_from : (n i : ℕ) → length (pad_from n i) ≡ n
unfolding pad_from
length-pad_from zero i = refl
length-pad_from (suc n) i = ap suc (length-pad_from n (i + 1))

pad_from-bytes : (n i : ℕ) → All IsByte (pad_from n i)
unfolding pad_from
pad_from-bytes zero i = tt
pad_from-bytes (suc n) i = (ground arith, pad_from-bytes n (i + 1))

-- The blocks of a padded frame.
abbrev pub blocks : List ℕ → ℕ
blocks frame = (length frame + 15) / block_size

pub length-padded : (frame : List ℕ) → length (padded frame) ≡ blocks frame * block_size
unfolding padded
length-padded frame =
    let n = (16 - length frame % 16) % 16 in
    omega (arith, length-append frame (pad_from n 0), length-pad_from n 0)

pub padded-bytes : (frame : List ℕ) → All IsByte frame → All IsByte (padded frame)
unfolding padded
padded-bytes frame h = All-append IsByte frame _ h (pad_from-bytes _ 0)

module _ (cipher : BlockCipher) where
  open cipher use {schedule}

  -- Bytes of any length encrypt, under a key and an initial vector of one block, to whole blocks
  -- from which the same key and vector give them back with their padding, and both ends go on
  -- with the same next vector.
  pub cbc_decrypt-encrypt :
      (key iv plaintext : List ℕ)
      → IsBlock iv
      → All IsByte plaintext
      → (buf next : List ℕ) × (cbc_encrypt_padded cipher key iv plaintext ≡ ok (buf, next))
        × (cbc_decrypt_inplace cipher key iv buf ≡ ok (padded plaintext, next))
        × (length buf ≡ length (padded plaintext))
  unfolding cbc_encrypt_padded cbc_decrypt_inplace
  cbc_decrypt-encrypt key iv plaintext p h =
      let c : AesCbc = record { key = key; iv = iv } in
      let n = blocks plaintext in
      let whole = length-padded plaintext in
      let bytes = padded-bytes plaintext h in
      let buf = encrypt_chunks cipher n (schedule key) iv (padded plaintext) in
      (
        buf,
        new_iv buf,
        rw (encrypt_in_place-chunks cipher n c (padded plaintext) p bytes whole),
        rw (decrypt_in_place-chunks cipher n c (padded plaintext) p bytes whole),
        length-encrypt_chunks cipher n (schedule key) iv (padded plaintext) whole bytes p
            ∙ sym whole,
      )
