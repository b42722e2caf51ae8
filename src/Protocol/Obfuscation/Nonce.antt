-- ===== src/Protocol/Obfuscation/Nonce.antt =====
-- Nonces: what the loop that draws them returns, and where the prepared nonce has its parts.
use v3mtp.Prelude.{
  drop-drop, ℕ, zero, suc, ◌+◌, ◌<◌, ◌≤◌, ◌≡◌, ◌∙◌, refl, ap, sym, arith, true, false, List, [],
  ◌∷◌, ◌++◌, reverse, some, length-reverse, length, take, drop, length-append, length-take,
  length-drop, take-length-append, drop-length-append,
}
use v3mtp.Protocol.Constants.{ProtoTag, to_bytes}
use v3mtp.Protocol.Obfuscation.Handshake.{length-to_bytes}
use v3mtp.Protocol.Obfuscation.{is_valid_nonce, generate_nonce, overwrite, prepare_tg_nonce}

-- Where the draw number `j` is the first that is a valid nonce, the loop returns it, on any fuel
-- above `j`.
pub generate_nonce-first :
    (j fuel i : ℕ) (draw : ℕ → List ℕ)
    → j < fuel
    → is_valid_nonce (draw (i + j)) ≡ true
    → ((k : ℕ) → k < j → is_valid_nonce (draw (i + k)) ≡ false)
    → generate_nonce fuel draw i ≡ some (draw (i + j))
unfolding generate_nonce
generate_nonce-first j zero i draw h valid invalid = absurd (omega arith)
generate_nonce-first zero (suc fuel) i draw h valid invalid =
    let same : i + 0 ≡ i = omega arith in
    let found : is_valid_nonce (draw i) ≡ true =
      ap (λ n. is_valid_nonce (draw n)) (sym same) ∙ valid in
    rw (same, found)
generate_nonce-first (suc j) (suc fuel) i draw h valid invalid =
    let here : i + 0 ≡ i = omega arith in
    let next : i + 1 + j ≡ i + suc j = omega arith in
    let missed : is_valid_nonce (draw i) ≡ false =
      ap (λ n. is_valid_nonce (draw n)) (sym here) ∙ invalid 0 (omega arith) in
    rw missed (
      generate_nonce-first j fuel (i + 1) draw (omega arith)
        (ap (λ n. is_valid_nonce (draw n)) next ∙ valid)
        (λ k below.
          let step : i + 1 + k ≡ i + suc k = omega arith in
          ap (λ n. is_valid_nonce (draw n)) step ∙ invalid (suc k) (omega (arith, below)))
      ∙ ap (λ n. some (draw n)) next)

pub take-take : (n m : ℕ) (xs : List ℕ) → n ≤ m → take n (take m xs) ≡ take n xs
take-take zero m xs h = refl
take-take (suc n) zero xs h = absurd (omega arith)
take-take (suc n) (suc m) [] h = refl
take-take (suc n) (suc m) (x ∷ xs) h = ap (◌∷◌ x) (take-take n m xs (omega arith))

-- A stretch of a list, overwritten: it is there, and what stands before and behind it is as it was.
pub overwritten :
    (i : ℕ) (bytes nonce : List ℕ)
    → i + length bytes ≤ length nonce
    → (take i (overwrite i bytes nonce) ≡ take i nonce)
      × (drop i (overwrite i bytes nonce) ≡ bytes ++ drop (i + length bytes) nonce)
overwritten i bytes nonce h =
    let front : i ≡ length (take i nonce) = omega (arith, length-take i nonce) in
    (
      take-length-append i (take i nonce) (bytes ++ drop (i + length bytes) nonce) front,
      drop-length-append i (take i nonce) (bytes ++ drop (i + length bytes) nonce) front,
    )

-- A nonce of 64 bytes, prepared with a tag and with 48 bytes of key and vector, begins as the nonce
-- does, has the key and the vector in reverse at its bytes 8 to 56, then the tag, and ends as the
-- nonce does.
pub prepare_tg_nonce-parts :
    (nonce key_iv : List ℕ) (tag : ProtoTag)
    → length nonce ≡ 64
    → length key_iv ≡ 48
    → let out = prepare_tg_nonce nonce tag (some key_iv) in
      (take 8 out ≡ take 8 nonce)
      × (take 48 (drop 8 out) ≡ reverse key_iv)
      × (drop 56 out ≡ to_bytes tag ++ drop 60 nonce)
unfolding prepare_tg_nonce
prepare_tg_nonce-parts nonce key_iv tag n k =
    let four = length-to_bytes tag in
    let tagged = overwrite 56 (to_bytes tag) nonce in
    let inner = overwritten 56 (to_bytes tag) nonce (omega (arith, four, n)) in
    let back = length-reverse key_iv in
    let stop : 8 + length (reverse key_iv) ≡ 56 = omega (arith, back, k) in
    let last : 56 + length (to_bytes tag) ≡ 60 = omega (arith, four) in
    let size : length tagged ≡ 64 = omega (
      arith,
      length-append (take 56 nonce) (to_bytes tag ++ drop (56 + length (to_bytes tag)) nonce),
      length-append (to_bytes tag) (drop (56 + length (to_bytes tag)) nonce),
      length-take 56 nonce,
      length-drop (56 + length (to_bytes tag)) nonce,
      four,
      n,
    ) in
    let out = overwrite 8 (reverse key_iv) tagged in
    let outer = overwritten 8 (reverse key_iv) tagged (omega (arith, back, k, size)) in
    (
      outer.0
          ∙ sym (take-take 8 56 tagged (omega arith))
          ∙ ap (take 8) inner.0
          ∙ take-take 8 56 nonce (omega arith),
      ap (take 48) outer.1
          ∙ take-length-append 48 (reverse key_iv) (drop (8 + length (reverse key_iv)) tagged)
              (omega (arith, back, k)),
      drop-drop 8 48 out
          ∙ ap (drop 48) outer.1
          ∙ drop-length-append 48 (reverse key_iv) (drop (8 + length (reverse key_iv)) tagged)
              (omega (arith, back, k))
          ∙ ap (λ m. drop m tagged) stop
          ∙ inner.1
          ∙ ap (λ m. to_bytes tag ++ drop m nonce) last,
    )
