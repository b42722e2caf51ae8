-- ===== src/Proxy/Handshake/Datacentre.antt =====
-- The opening of a connection to a datacentre: what is sent, and what the datacentre reads of it.
use v3mtp.Prelude.{
  ℕ, ◌+◌, ◌^◌, ◌<◌, ◌≡◌, refl, sym, ap, ◌∙◌, arith, Bool, List, ◌++◌, some, length, take, drop,
  length-take, take-length-append, drop-length-append, drop-drop, take-append-drop, to_le_bytes,
  from_be_bytes, from_le_bytes, from_le_bytes-to_le_bytes, All, IsByte, All-append, All-drop,
  to_le_bytes-bytes,
}
use mathlib.Core.Path.{subst}
use v3mtp.Protocol.Constants.{ProtoTag, from_bytes, to_bytes}
use v3mtp.Protocol.Obfuscation.{Primitives}
use v3mtp.Protocol.Obfuscation.Handshake.{length-to_bytes, from_bytes-to_bytes}
use v3mtp.Protocol.Obfuscation.Nonce.{take-take}
use v3mtp.Crypto.Ctr.{
  apply_keystream, length-apply_keystream, apply_keystream-append, apply_keystream_cancel,
}
use v3mtp.Proxy.Handshake.Nonce.{with_keys, prepared, encrypt_tg_nonce_with_ciphers}
use v3mtp.Proxy.Handshake.Routed.{drop-take, prepared_parts}

-- What is sent: the first 56 bytes in clear, the rest encrypted in their places.
module _ (prims : Primitives) (nonce : List ℕ) (size : length nonce ≡ 64) where
  abbrev stream : ℕ → ℕ
  stream = prims.keystream (with_keys nonce).tg_enc_key (with_keys nonce).tg_enc_iv

  abbrev sent : List ℕ
  sent = (encrypt_tg_nonce_with_ciphers prims nonce).0

  sent_parts : sent ≡ take 56 nonce ++ apply_keystream stream 56 (drop 56 nonce)
  unfolding encrypt_tg_nonce_with_ciphers
  sent_parts =
      let front : 56 ≡ length (take 56 nonce) = omega (arith, size, length-take 56 nonce) in
      ap (λ xs. take 56 nonce ++ drop 56 (apply_keystream stream 0 xs))
        (sym (take-append-drop 56 nonce))
      ∙ ap (λ xs. take 56 nonce ++ drop 56 xs)
          (apply_keystream-append stream 0 (take 56 nonce) (drop 56 nonce))
      ∙ ap (λ xs. take 56 nonce ++ xs)
          (drop-length-append 56 (apply_keystream stream 0 (take 56 nonce))
            (apply_keystream stream (0 + length (take 56 nonce)) (drop 56 nonce))
            (front ∙ sym (length-apply_keystream stream 0 (take 56 nonce))))
      ∙ ap (λ k. take 56 nonce ++ apply_keystream stream k (drop 56 nonce)) (omega (arith, front))

  sent_front : take 56 sent ≡ take 56 nonce
  sent_front =
      ap (take 56) sent_parts
      ∙ take-length-append 56 (take 56 nonce) (apply_keystream stream 56 (drop 56 nonce))
          (omega (arith, size, length-take 56 nonce))

  -- With the keystream of the nonce, the datacentre gets the end of it.
  sent_opened : All IsByte (drop 56 nonce) → drop 56 (apply_keystream stream 0 sent) ≡ drop 56 nonce
  sent_opened bytes =
      let hidden = apply_keystream stream 56 (drop 56 nonce) in
      let front : 56 ≡ length (take 56 nonce) = omega (arith, size, length-take 56 nonce) in
      ap (λ xs. drop 56 (apply_keystream stream 0 xs)) sent_parts
      ∙ ap (drop 56) (apply_keystream-append stream 0 (take 56 nonce) hidden)
      ∙ drop-length-append 56 (apply_keystream stream 0 (take 56 nonce))
          (apply_keystream stream (0 + length (take 56 nonce)) hidden)
          (front ∙ sym (length-apply_keystream stream 0 (take 56 nonce)))
      ∙ ap (λ k. apply_keystream stream k hidden) (omega (arith, front))
      ∙ apply_keystream_cancel stream 56 (drop 56 nonce)
          (prims.keystream-byte (with_keys nonce).tg_enc_key (with_keys nonce).tg_enc_iv) bytes

  -- The keys that the datacentre reads from the bytes 8 to 56 are those of the nonce.
  sent_keys : take 48 (drop 8 sent) ≡ take 48 (drop 8 nonce)
  sent_keys = sym (drop-take 8 48 sent) ∙ ap (drop 8) sent_front ∙ drop-take 8 48 nonce

end-bytes :
    (tag : ProtoTag) (dc_idx : ℕ) (drawn : List ℕ)
    → All IsByte drawn
    → All IsByte (to_bytes tag ++ (to_le_bytes 2 dc_idx ++ drop 62 drawn))
unfolding to_bytes
end-bytes tag dc_idx drawn bytes =
    All-append IsByte (to_le_bytes 4 _) (to_le_bytes 2 dc_idx ++ drop 62 drawn)
      (to_le_bytes-bytes 4 _)
      (All-append IsByte (to_le_bytes 2 dc_idx) (drop 62 drawn) (to_le_bytes-bytes 2 dc_idx)
        (All-drop IsByte 62 drawn bytes))

-- Where 64 bytes were drawn, whatever the mode: what is sent begins as they did, and with the key and the vector that it has in its bytes 8
-- to 56, the datacentre decrypts its end to the tag and the number of the datacentre.
pub datacentre_opens :
    (prims : Primitives) (tag : ProtoTag) (dc_idx : ℕ) (drawn client_enc_key : List ℕ)
    (client_enc_iv : ℕ) (fast_mode : Bool)
    → length drawn ≡ 64
    → All IsByte drawn
    → length client_enc_key ≡ 32
    → dc_idx < 2 ^ 16
    → (let g = prepared tag dc_idx client_enc_key client_enc_iv fast_mode drawn in
        let sent_bytes = (encrypt_tg_nonce_with_ciphers prims g.nonce).0 in
        let key_iv = take 48 (drop 8 sent_bytes) in
        let opened =
          apply_keystream
            (prims.keystream (take 32 key_iv) (from_be_bytes (drop 32 key_iv)))
            0
            sent_bytes in
        (take 8 sent_bytes ≡ take 8 drawn)
        × ((from_bytes (take 4 (drop 56 opened)) ≡ some tag)
            × (from_le_bytes (take 2 (drop 60 opened)) ≡ dc_idx)))
datacentre_opens prims tag dc_idx drawn client_enc_key client_enc_iv fast_mode size bytes key_size
      small =
    let nonce = (prepared tag dc_idx client_enc_key client_enc_iv fast_mode drawn).nonce in
    let (whole, (front, tail)) =
      prepared_parts tag dc_idx drawn size client_enc_key client_enc_iv key_size fast_mode in
    let sent_bytes = sent prims nonce whole in
    let end = to_bytes tag ++ (to_le_bytes 2 dc_idx ++ drop 62 drawn) in
    let opened_with = λ (key_iv : List ℕ).
      apply_keystream (prims.keystream (take 32 key_iv) (from_be_bytes (drop 32 key_iv))) 0
        sent_bytes in
    let opened : drop 56 (opened_with (take 48 (drop 8 sent_bytes))) ≡ end =
      ap (λ k. drop 56 (opened_with k)) (sent_keys prims nonce whole)
      ∙ sent_opened prims nonce whole
          (subst (All IsByte) (sym tail) (end-bytes tag dc_idx drawn bytes))
      ∙ tail in
    (
      sym (take-take 8 56 sent_bytes (omega arith))
          ∙ ap (take 8) (sent_front prims nonce whole)
          ∙ take-take 8 56 nonce (omega arith)
          ∙ front,
      (
        ap (λ xs. from_bytes (take 4 xs)) opened
            ∙ ap from_bytes (
                take-length-append 4 (to_bytes tag) (to_le_bytes 2 dc_idx ++ drop 62 drawn)
                  (length-to_bytes tag))
            ∙ from_bytes-to_bytes tag,
        ap (λ xs. from_le_bytes (take 2 xs))
              (drop-drop 56 4 (opened_with (take 48 (drop 8 sent_bytes)))
                ∙ ap (drop 4) opened
                ∙ drop-length-append 4 (to_bytes tag) (to_le_bytes 2 dc_idx ++ drop 62 drawn)
                    (length-to_bytes tag))
            ∙ ap from_le_bytes (take-length-append 2 (to_le_bytes 2 dc_idx) (drop 62 drawn) refl)
            ∙ from_le_bytes-to_le_bytes 2 dc_idx small,
      ),
    )
