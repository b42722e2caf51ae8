-- ===== src/Crypto/Aes/Sequence.antt =====
-- Messages in sequence: to take the last ciphertext block as the next initial vector is to encrypt
-- the messages as one.
use v3mtp.Prelude.{
  ℕ, zero, suc, ◌+◌, ◌-◌, ◌*◌, ◌≤◌, ◌≡◌, ◌∙◌, sym, List, [], ◌∷◌, ◌++◌, arith, length, drop,
  length-drop, append_assoc, append-nil, All, All-drop, IsByte, take-append_le, drop-append_le,
}
use v3mtp.Crypto.Aes.{BlockCipher, IsBlock, block_size, encrypt_chunks}
use v3mtp.Crypto.Aes.Chain.{sealed, sealed-IsBlock}

drop-append_ge {ℓ} :
    {A : Type ℓ} (n : ℕ) (xs ys : List A)
    → length xs ≤ n
    → drop n (xs ++ ys) ≡ drop (n - length xs) ys
drop-append_ge n [] ys h = let e : n - 0 ≡ n = omega arith in rw e
drop-append_ge zero (x ∷ xs) ys h = absurd (omega arith)
drop-append_ge (suc n) (x ∷ xs) ys h =
    let e : suc n - suc (length xs) ≡ n - length xs = omega arith in
    rw e (drop-append_ge n xs ys (omega arith))

module _ (cipher : BlockCipher) where
  open cipher use {Schedule}

  -- What `n` rounds leave in `prev_ciphertext`.
  abbrev pub chain_end : ℕ → Schedule → List ℕ → List ℕ → List ℕ
  chain_end zero k prev input = prev
  chain_end (suc n) k prev input =
      chain_end n k (sealed cipher k prev input) (drop block_size input)

  pub encrypt_chunks-append :
      (n m : ℕ) (k : Schedule) (prev front back : List ℕ)
      → length front ≡ n * block_size
      → encrypt_chunks cipher (n + m) k prev (front ++ back)
        ≡ encrypt_chunks cipher n k prev front
          ++ encrypt_chunks cipher m k (chain_end n k prev front) back
  unfolding encrypt_chunks
  encrypt_chunks-append zero m k prev [] back e = let same : 0 + m ≡ m = omega arith in rw same
  encrypt_chunks-append zero m k prev (x ∷ front) back e = absurd (omega arith)
  encrypt_chunks-append (suc n) m k prev front back e =
      let same : suc n + m ≡ suc (n + m) = omega arith in
      rw
        (
          same,
          take-append_le block_size front back (omega arith),
          drop-append_le block_size front back (omega arith),
        )
        (rw
          (encrypt_chunks-append n m k (sealed cipher k prev front) (drop block_size front) back
            (omega (arith, length-drop block_size front)))
          (sym (append_assoc (sealed cipher k prev front) _ _)))

  pub drop-encrypt_chunks :
      (n : ℕ) (k : Schedule) (prev input : List ℕ)
      → length input ≡ suc n * block_size
      → All IsByte input
      → IsBlock prev
      → drop (n * block_size) (encrypt_chunks cipher (suc n) k prev input)
        ≡ chain_end (suc n) k prev input
  unfolding encrypt_chunks
  drop-encrypt_chunks zero k prev input e h p = append-nil _
  drop-encrypt_chunks (suc n) k prev input e h p =
      let block = sealed cipher k prev input in
      let whole = sealed-IsBlock cipher (suc n) k prev input e h p in
      let rest = drop block_size input in
      let less : suc n * block_size - length block ≡ n * block_size = omega (arith, whole.0) in
      drop-append_ge (suc n * block_size) block (encrypt_chunks cipher (suc n) k block rest)
        (omega (arith, whole.0))
      ∙ rw less (
          drop-encrypt_chunks n k block rest (omega (arith, length-drop block_size input))
            (All-drop IsByte block_size input h) whole)

  pub chain_end-IsBlock :
      (n : ℕ) (k : Schedule) (prev input : List ℕ)
      → length input ≡ n * block_size
      → All IsByte input
      → IsBlock prev
      → IsBlock (chain_end n k prev input)
  chain_end-IsBlock zero k prev input e h p = p
  chain_end-IsBlock (suc n) k prev input e h p =
      chain_end-IsBlock n k (sealed cipher k prev input) (drop block_size input)
        (omega (arith, length-drop block_size input)) (All-drop IsByte block_size input h)
        (sealed-IsBlock cipher n k prev input e h p)
