-- ===== src/Proxy/Handshake/Routed.antt =====
-- The parts of the nonce for a datacentre: the tag, the datacentre and, in the fast mode, the client's key.
use v3mtp.Prelude.{
  ℕ, zero, suc, ◌+◌, ◌^◌, ◌<◌, ◌≤◌, ◌≡◌, refl, sym, ap, ap₂, ◌∙◌, arith, Bool, true, false, List,
  [], ◌∷◌, ◌++◌, reverse, length, take, drop, length-append, length-take, length-drop,
  length-reverse, take-length-append, drop-length-append, drop-append_le, drop-drop, to_be_bytes,
  to_le_bytes, from_be_bytes, from_le_bytes, from_le_bytes-to_le_bytes,
}
use mathlib.Core.List.{reverse-reverse}
use v3mtp.Protocol.Constants.{ProtoTag, to_bytes}
use v3mtp.Protocol.Obfuscation.{overwrite}
use v3mtp.Protocol.Obfuscation.Handshake.{length-to_bytes}
use v3mtp.Protocol.Obfuscation.Nonce.{overwritten, take-take}
use v3mtp.Proxy.Handshake.Nonce.{prepared}

take-nil {ℓ} : {A : Type ℓ} (m : ℕ) → take {A = A} m [] ≡ []
take-nil zero = refl
take-nil (suc m) = refl

shift : (n m : ℕ) → suc n + m ≡ suc (n + m)
shift n m = omega arith

pub drop-take {ℓ} :
    {A : Type ℓ} (n m : ℕ) (xs : List A) → drop n (take (n + m) xs) ≡ take m (drop n xs)
drop-take zero m xs = ap (λ k. take k xs) (omega arith)
drop-take (suc n) m [] = ap (λ k. drop (suc n) (take k [])) (shift n m) ∙ sym (take-nil m)
drop-take (suc n) m (x ∷ xs) =
    ap (λ k. drop (suc n) (take k (x ∷ xs))) (shift n m) ∙ drop-take n m xs

length-overwrite :
    (i : ℕ) (bytes nonce : List ℕ)
    → i + length bytes ≤ length nonce
    → length (overwrite i bytes nonce) ≡ length nonce
length-overwrite i bytes nonce h = omega (
  arith,
  h,
  length-append (take i nonce) (bytes ++ drop (i + length bytes) nonce),
  length-append bytes (drop (i + length bytes) nonce),
  length-take i nonce,
  length-drop (i + length bytes) nonce,
)

-- Behind what was overwritten.
overwritten_after :
    (i k : ℕ) (bytes nonce : List ℕ)
    → i + length bytes ≡ k
    → k ≤ length nonce
    → drop k (overwrite i bytes nonce) ≡ drop k nonce
overwritten_after i k bytes nonce e h =
    ap (λ m. drop m (overwrite i bytes nonce)) (sym e)
    ∙ drop-drop i (length bytes) (overwrite i bytes nonce)
    ∙ ap (drop (length bytes)) (overwritten i bytes nonce (omega (arith, e, h))).1
    ∙ drop-length-append (length bytes) bytes (drop (i + length bytes) nonce) refl
    ∙ ap (λ m. drop m nonce) e

module _ (tag : ProtoTag) (dc_idx : ℕ) (drawn : List ℕ) (size : length drawn ≡ 64) where
  abbrev tagged : List ℕ
  tagged = overwrite 56 (to_bytes tag) drawn

  abbrev routed : List ℕ
  routed = overwrite 60 (to_le_bytes 2 dc_idx) tagged

  four : length (to_bytes tag) ≡ 4
  four = sym (length-to_bytes tag)

  length-tagged : length tagged ≡ 64
  length-tagged = length-overwrite 56 (to_bytes tag) drawn (omega (arith, four, size)) ∙ size

  length-routed : length routed ≡ 64
  length-routed =
      length-overwrite 60 (to_le_bytes 2 dc_idx) tagged (omega (arith, length-tagged))
      ∙ length-tagged

  -- The tag, the datacentre, and two bytes that were drawn.
  routed_tail : drop 56 routed ≡ to_bytes tag ++ (to_le_bytes 2 dc_idx ++ drop 62 drawn)
  routed_tail =
      let rest = to_le_bytes 2 dc_idx ++ drop 62 tagged in
      drop-append_le 56 (take 60 tagged) rest (omega (arith, length-take 60 tagged, length-tagged))
      ∙ ap₂ (λ xs ys. xs ++ (to_le_bytes 2 dc_idx ++ ys))
          (drop-take 56 4 tagged
            ∙ ap (take 4) (overwritten 56 (to_bytes tag) drawn (omega (arith, four, size))).1
            ∙ take-length-append 4 (to_bytes tag) (drop (56 + length (to_bytes tag)) drawn)
                (sym four))
          (drop-drop 60 2 tagged
            ∙ ap (drop 2) (
                overwritten_after 56 60 (to_bytes tag) drawn (omega (arith, four))
                  (omega (arith, size)))
            ∙ sym (drop-drop 60 2 drawn))

  routed_front : take 8 routed ≡ take 8 drawn
  routed_front =
      sym (take-take 8 60 routed (omega arith))
      ∙ ap (take 8) (overwritten 60 (to_le_bytes 2 dc_idx) tagged (omega (arith, length-tagged))).0
      ∙ take-take 8 60 tagged (omega arith)
      ∙ sym (take-take 8 56 tagged (omega arith))
      ∙ ap (take 8) (overwritten 56 (to_bytes tag) drawn (omega (arith, four, size))).0
      ∙ take-take 8 56 drawn (omega arith)

  -- In the fast mode, the bytes 8 to 56 are the client's.
  module _ (client_enc_key : List ℕ) (client_enc_iv : ℕ)
      (key_size : length client_enc_key ≡ 32) where
    abbrev key_iv : List ℕ
    key_iv = reverse (client_enc_key ++ to_be_bytes 16 client_enc_iv)

    length-key_iv : length key_iv ≡ 48
    length-key_iv =
        length-reverse (client_enc_key ++ to_be_bytes 16 client_enc_iv)
        ∙ length-append client_enc_key (to_be_bytes 16 client_enc_iv)
        ∙ omega (arith, key_size, length-reverse (to_le_bytes 16 client_enc_iv))

    fast_keys : take 48 (drop 8 (overwrite 8 key_iv routed)) ≡ key_iv
    fast_keys =
        ap (take 48) (overwritten 8 key_iv routed (omega (arith, length-key_iv, length-routed))).1
        ∙ take-length-append 48 key_iv (drop (8 + length key_iv) routed) (sym length-key_iv)

    -- In the fast mode, with a key of 32 bytes and an initial vector of 128 bits, the keys for what the datacentre sends are those
    -- for what the client receives: the bytes may be passed on as they are.
    pub prepared-fast :
        client_enc_iv < 2 ^ 128
        → let g = prepared tag dc_idx client_enc_key client_enc_iv true drawn in
          (g.tg_dec_key ≡ client_enc_key) × (g.tg_dec_iv ≡ client_enc_iv)
    unfolding prepared
    prepared-fast small =
        let back : reverse (take 48 (drop 8 (overwrite 8 key_iv routed)))
            ≡ client_enc_key ++ to_be_bytes 16 client_enc_iv =
          ap reverse fast_keys ∙ reverse-reverse (client_enc_key ++ to_be_bytes 16 client_enc_iv) in
        (
          ap (take 32) back
              ∙ take-length-append 32 client_enc_key (to_be_bytes 16 client_enc_iv) (sym key_size),
          ap (λ xs. from_be_bytes (drop 32 xs)) back
              ∙ ap from_be_bytes (
                  drop-length-append 32 client_enc_key (to_be_bytes 16 client_enc_iv)
                    (sym key_size))
              ∙ ap from_le_bytes (reverse-reverse (to_le_bytes 16 client_enc_iv))
              ∙ from_le_bytes-to_le_bytes 16 client_enc_iv small,
        )

    -- Whether in the fast mode or not, the nonce begins as it was drawn, and ends with the tag and the datacentre.
    pub prepared_parts :
        (fast_mode : Bool)
        → let nonce = (prepared tag dc_idx client_enc_key client_enc_iv fast_mode drawn).nonce in
          (length nonce ≡ 64)
          × ((take 8 nonce ≡ take 8 drawn)
              × (drop 56 nonce ≡ to_bytes tag ++ (to_le_bytes 2 dc_idx ++ drop 62 drawn)))
    unfolding prepared
    prepared_parts false = (length-routed, (routed_front, routed_tail))
    prepared_parts true =
        let fits : 8 + length key_iv ≤ length routed =
          omega (arith, length-key_iv, length-routed) in
        (
          length-overwrite 8 key_iv routed fits ∙ length-routed,
          (
            (overwritten 8 key_iv routed fits).0 ∙ routed_front,
            overwritten_after 8 56 key_iv routed (omega (arith, length-key_iv))
                  (omega (arith, length-routed))
                ∙ routed_tail,
          ),
        )
