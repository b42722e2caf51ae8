-- ===== src/Proxy/Handshake/Nonce.antt =====
-- `generate_tg_nonce` and `encrypt_tg_nonce_with_ciphers` of src/proxy/handshake.rs: the 64 bytes that
-- open the connection to a datacentre.
use v3mtp.Prelude.{
  ℕ, zero, suc, ◌+◌, Bool, ◌||◌, List, [], ◌∷◌, ◌++◌, reverse, Option, none, some, length, take,
  drop, to_be_bytes, to_le_bytes, from_be_bytes, if◌then◌else◌,
}
use v3mtp.Protocol.Constants.{ProtoTag, to_bytes}
use v3mtp.Protocol.Obfuscation.{
  Primitives, overwrite, is_among, reserved_nonce_beginnings, reserved_nonce_continues,
}
use v3mtp.Crypto.Ctr.{apply_keystream}

-- The nonce with its keys and initial vectors, as the function returns them.
pub record TgNonce : Type 0 where
  pub nonce : List ℕ
  pub tg_enc_key : List ℕ
  pub tg_enc_iv : ℕ
  pub tg_dec_key : List ℕ
  pub tg_dec_iv : ℕ

abbrev pub reserved_nonce_first_bytes : List ℕ
reserved_nonce_first_bytes = 0xef ∷ []

-- Whether the loop draws again.
unfoldable pub is_reserved : List ℕ → Bool
is_reserved nonce =
    is_among (take 1 nonce) (reserved_nonce_first_bytes ∷ [])
    || (is_among (take 4 nonce) reserved_nonce_beginnings
        || is_among (take 4 (drop 4 nonce)) reserved_nonce_continues)

-- The keys in the bytes 8 to 56, for one direction as they stand, and for the other in reverse.
abbrev pub with_keys : List ℕ → TgNonce
with_keys nonce =
    let enc_key_iv = take 48 (drop 8 nonce) in
    let dec_key_iv = reverse enc_key_iv in
    record {
      nonce = nonce;
      tg_enc_key = take 32 enc_key_iv;
      tg_enc_iv = from_be_bytes (drop 32 enc_key_iv);
      tg_dec_key = take 32 dec_key_iv;
      tg_dec_iv = from_be_bytes (drop 32 dec_key_iv);
    }

-- What is made of a nonce that was drawn.
unfoldable pub prepared : ProtoTag → ℕ → List ℕ → ℕ → Bool → List ℕ → TgNonce
prepared proto_tag dc_idx client_enc_key client_enc_iv fast_mode drawn =
    let routed = overwrite 60 (to_le_bytes 2 dc_idx) (overwrite 56 (to_bytes proto_tag) drawn) in
    let key_iv = reverse (client_enc_key ++ to_be_bytes 16 client_enc_iv) in
    with_keys (if fast_mode then overwrite 8 key_iv routed else routed)

-- The loop, on the first `fuel` draws; `draw i` is what the i-th call of `rng.bytes(64)` gives.
unfoldable pub generate_tg_nonce :
    ProtoTag → ℕ → List ℕ → ℕ → Bool → ℕ → (ℕ → List ℕ) → ℕ → Option TgNonce
generate_tg_nonce proto_tag dc_idx client_enc_key client_enc_iv fast_mode zero draw i = none
generate_tg_nonce proto_tag dc_idx client_enc_key client_enc_iv fast_mode (suc fuel) draw i =
    let rest =
      generate_tg_nonce proto_tag dc_idx client_enc_key client_enc_iv fast_mode fuel draw (i + 1) in
    if is_reserved (draw i)
    then rest
    else some (prepared proto_tag dc_idx client_enc_key client_enc_iv fast_mode (draw i))

-- What is sent, with the position of the encryptor after it; the decryptor is at the start.
unfoldable pub encrypt_tg_nonce_with_ciphers : Primitives → List ℕ → List ℕ × ℕ
encrypt_tg_nonce_with_ciphers prims nonce =
    let keys = with_keys nonce in
    let encrypted_full = apply_keystream (prims.keystream keys.tg_enc_key keys.tg_enc_iv) 0 nonce in
    (take 56 nonce ++ drop 56 encrypted_full, length nonce)
