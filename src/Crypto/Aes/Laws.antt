-- ===== src/Crypto/Aes/Laws.antt =====
-- The operations of `AesCbc`: the round trip, the forms in place, and messages in sequence.
use v3mtp.Prelude.{
  ℕ, zero, suc, ◌+◌, ◌*◌, ◌/◌, ◌%◌, ◌≡◌, ◌∙◌, refl, List, [], ◌∷◌, ◌++◌, ok, err, arith, length,
  take, drop, length-append, length-drop, take-length-append, drop-length-append, append_assoc, All,
  All-drop, IsByte, is_empty, ◌==◌, if◌then◌else◌, ◌>>=◌,
}
use v3mtp.Crypto.Aes.{
  BlockCipher, AesCbc, CryptoError, IsBlock, block_size, xor_blocks, encrypt_chunks, decrypt_chunks,
  encrypt_from, decrypt_from, encrypt, decrypt, encrypt_in_place, decrypt_in_place,
}
use v3mtp.Crypto.Aes.Chain.{
  sealed, sealed-IsBlock, length-encrypt_chunks, decrypt_chunks-encrypt_chunks,
  encrypt_chunks-bytes, xor_blocks-IsBlock, first-IsBlock,
}

is_empty-length {ℓ} : {A : Type ℓ} (xs : List A) → is_empty xs ≡ (length xs == 0)
is_empty-length [] = refl
is_empty-length (x ∷ xs) = ground arith

empty_length : (xs : List ℕ) → length xs ≡ 0 → xs ≡ []
empty_length [] e = refl
empty_length (x ∷ xs) e = absurd (omega arith)

module _ (cipher : BlockCipher) where
  open cipher use {Schedule, schedule, encrypt_block, decrypt_block, decrypt_block-IsBlock}

  encrypt_from-chunks :
      (n : ℕ) (k : Schedule) (prev front input : List ℕ)
      → length input ≡ n * block_size
      → All IsByte input
      → IsBlock prev
      → encrypt_from cipher n (length front) k prev (front ++ input)
        ≡ front ++ encrypt_chunks cipher n k prev input
  unfolding encrypt_from encrypt_chunks
  encrypt_from-chunks zero k prev front [] e h p = refl
  encrypt_from-chunks zero k prev front (x ∷ input) e h p = absurd (omega arith)
  encrypt_from-chunks (suc n) k prev front input e h p =
      let block = sealed cipher k prev input in
      let whole = sealed-IsBlock cipher n k prev input e h p in
      let rest = drop block_size input in
      let size : length front + block_size ≡ length (front ++ block) =
        omega (arith, length-append front block, whole.0) in
      rw
        (
          drop-length-append (length front) front input refl,
          take-length-append (length front) front input refl,
          ← append_assoc front block rest,
          size,
        )
        (encrypt_from-chunks n k block (front ++ block) rest
            (omega (arith, length-drop block_size input)) (All-drop IsByte block_size input h) whole
          ∙ append_assoc front block _)

  decrypt_from-chunks :
      (n : ℕ) (k : Schedule) (prev front input : List ℕ)
      → length input ≡ n * block_size
      → All IsByte input
      → IsBlock prev
      → decrypt_from cipher n (length front) k prev (front ++ input)
        ≡ front ++ decrypt_chunks cipher n k prev input
  unfolding decrypt_from decrypt_chunks
  decrypt_from-chunks zero k prev front [] e h p = refl
  decrypt_from-chunks zero k prev front (x ∷ input) e h p = absurd (omega arith)
  decrypt_from-chunks (suc n) k prev front input e h p =
      let current = take block_size input in
      let first = first-IsBlock n input e h in
      let block = xor_blocks (decrypt_block k current) prev in
      let whole =
        xor_blocks-IsBlock (decrypt_block k current) prev (decrypt_block-IsBlock k current first)
          p in
      let rest = drop block_size input in
      let size : length front + block_size ≡ length (front ++ block) =
        omega (arith, length-append front block, whole.0) in
      rw
        (
          drop-length-append (length front) front input refl,
          take-length-append (length front) front input refl,
          ← append_assoc front block rest,
          size,
        )
        (decrypt_from-chunks n k current (front ++ block) rest
            (omega (arith, length-drop block_size input)) (All-drop IsByte block_size input h) first
          ∙ append_assoc front block _)

  -- For an initial vector of one block and any bytes, the calls in place return what the calls
  -- that allocate return, and fail where they fail.
  pub in_place_agrees :
      (c : AesCbc) (input : List ℕ)
      → IsBlock c.iv
      → All IsByte input
      → (encrypt_in_place cipher c input ≡ encrypt cipher c input)
        × (decrypt_in_place cipher c input ≡ decrypt cipher c input)
  unfolding encrypt_in_place decrypt_in_place encrypt decrypt
  in_place_agrees c input p h = (
    ground (arith, encrypt_from-chunks (length input / block_size) (schedule c.key) c.iv [] input),
    ground (arith, decrypt_from-chunks (length input / block_size) (schedule c.key) c.iv [] input),
  )

  -- For an initial vector of one block, bytes in whole blocks are encrypted to bytes from which
  -- `decrypt` with the same key and vector gives them back. Any other length is refused.
  pub decrypt-encrypt :
      (c : AesCbc) (input : List ℕ)
      → IsBlock c.iv
      → All IsByte input
      → (encrypt cipher c input >>= decrypt cipher c) ≡ (
          if length input % block_size == 0
          then ok input
          else err (CryptoError.not_aligned (length input)))
  unfolding encrypt decrypt
  decrypt-encrypt c input p h =
      let n = length input / block_size in
      let output = encrypt_chunks cipher n (schedule c.key) c.iv input in
      ground (
        arith,
        is_empty-length input,
        is_empty-length output,
        length-encrypt_chunks cipher n (schedule c.key) c.iv input,
        decrypt_chunks-encrypt_chunks cipher n (schedule c.key) c.iv input,
        empty_length input,
      )

  -- Whole blocks of bytes, encrypted in place, are the chunks of `encrypt_chunks`.
  pub encrypt_in_place-chunks :
      (n : ℕ) (c : AesCbc) (input : List ℕ)
      → IsBlock c.iv
      → All IsByte input
      → length input ≡ n * block_size
      → encrypt_in_place cipher c input ≡ ok (encrypt_chunks cipher n (schedule c.key) c.iv input)
  unfolding encrypt
  encrypt_in_place-chunks n c input p h e =
      let size : length input / block_size ≡ n = omega (arith, e) in
      let output = encrypt_chunks cipher n (schedule c.key) c.iv input in
      (in_place_agrees c input p h).0
      ∙ rw size (
          ground (
            arith,
            is_empty-length input,
            length-encrypt_chunks cipher n (schedule c.key) c.iv input,
            empty_length output,
          ))

  pub decrypt_in_place-chunks :
      (n : ℕ) (c : AesCbc) (input : List ℕ)
      → IsBlock c.iv
      → All IsByte input
      → length input ≡ n * block_size
      → decrypt_in_place cipher c (encrypt_chunks cipher n (schedule c.key) c.iv input) ≡ ok input
  unfolding decrypt
  decrypt_in_place-chunks n c input p h e =
      let output = encrypt_chunks cipher n (schedule c.key) c.iv input in
      let long = length-encrypt_chunks cipher n (schedule c.key) c.iv input e h p in
      let size : length output / block_size ≡ n = omega (arith, long) in
      (in_place_agrees c output p
        (encrypt_chunks-bytes cipher n (schedule c.key) c.iv input e h p)).1
      ∙ rw size (
          ground (
            arith,
            is_empty-length output,
            decrypt_chunks-encrypt_chunks cipher n (schedule c.key) c.iv input,
            empty_length input,
          ))
