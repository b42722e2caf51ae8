-- ===== src/Protocol/Obfuscation.antt =====
-- src/protocol/obfuscation.rs: the 64 bytes that open an obfuscated connection. SHA-256 and the
-- keystream of AES-256-CTR are the crates' and stand in `Primitives`; `AesCtr` of
-- src/crypto/aes.rs combines the keystream with the bytes. `dc_idx` is the bit pattern of the i16.
pub mod Handshake
pub mod Nonce
mod Examples
use Prim.Native.String.{String}
use v3mtp.Prelude.{
  same_bytes, ℕ, zero, suc, ◌+◌, ◌%◌, ◌^◌, ◌<◌, Bool, true, false, ◌&&◌, ◌||◌, not, List, [], ◌∷◌,
  ◌++◌, reverse, Option, none, some, length, take, drop, byte_at, to_be_bytes, from_be_bytes,
  from_le_bytes, bit_xor, ◌==◌, if◌then◌else◌,
}
use v3mtp.Crypto.Ctr.{apply_keystream}
use v3mtp.Protocol.Constants.{ProtoTag, from_bytes, to_bytes}

-- The keystream of a key and an initial counter, byte by byte.
pub record Primitives : Type 0 where
  pub sha256 : List ℕ → List ℕ
  pub keystream : List ℕ → ℕ → ℕ → ℕ
  pub keystream-byte : (key : List ℕ) (iv i : ℕ) → keystream key iv i < 256

pub record ObfuscationParams : Type 0 where
  pub decrypt_key : List ℕ
  pub decrypt_iv : ℕ
  pub encrypt_key : List ℕ
  pub encrypt_iv : ℕ
  pub proto_tag : ProtoTag
  pub dc_idx : ℕ

module _ (prims : Primitives) where
  open prims use {sha256, keystream}

  -- `enc_prekey_iv` is its reverse.
  abbrev pub dec_prekey_iv : List ℕ → List ℕ
  dec_prekey_iv handshake = take 48 (drop 8 handshake)

  abbrev pub key_of : List ℕ → List ℕ → List ℕ
  key_of prekey_iv secret = sha256 (take 32 prekey_iv ++ secret)

  abbrev pub iv_of : List ℕ → ℕ
  iv_of prekey_iv = from_be_bytes (drop 32 prekey_iv)

  -- `AesCtr::new(&decrypt_key, decrypt_iv).decrypt(handshake)`.
  abbrev pub decrypted : List ℕ → List ℕ → List ℕ
  decrypted handshake secret =
      let prekey_iv = dec_prekey_iv handshake in
      apply_keystream (keystream (key_of prekey_iv secret) (iv_of prekey_iv)) 0 handshake

  -- With the keys of the prekey and its reverse.
  abbrev pub params_from : List ℕ → List ℕ → ProtoTag → ℕ → ObfuscationParams
  params_from prekey_iv secret tag dc_idx = record {
    decrypt_key = key_of prekey_iv secret;
    decrypt_iv = iv_of prekey_iv;
    encrypt_key = key_of (reverse prekey_iv) secret;
    encrypt_iv = iv_of (reverse prekey_iv);
    proto_tag = tag;
    dc_idx = dc_idx;
  }

  abbrev pub params : List ℕ → List ℕ → ProtoTag → ℕ → ObfuscationParams
  params handshake secret tag dc_idx = params_from (dec_prekey_iv handshake) secret tag dc_idx

  -- The body of the loop, `none` where it continues.
  unfoldable pub try_secret : List ℕ → List ℕ → Option ObfuscationParams
  try_secret handshake secret =
      let plain = decrypted handshake secret in
      elim (from_bytes (take 4 (drop 56 plain))) [
        | none ↦ none
        | some tag ↦ some (params handshake secret tag (from_le_bytes (take 2 (drop 60 plain))))
      ]

  unfoldable pub from_handshake :
      List ℕ → List (String × List ℕ) → Option (ObfuscationParams × String)
  from_handshake handshake [] = none
  from_handshake handshake ((username, secret) ∷ secrets) =
      let rest = from_handshake handshake secrets in
      elim (try_secret handshake secret) [ none ↦ rest | some p ↦ some (p, username) ]

unfoldable pub enc_key_iv : ObfuscationParams → List ℕ
enc_key_iv p = p.encrypt_key ++ to_be_bytes 16 p.encrypt_iv

-- `contains` of a table.
abbrev pub is_among : List ℕ → List (List ℕ) → Bool
is_among bs [] = false
is_among bs (row ∷ rows) = same_bytes bs row || is_among bs rows

abbrev pub four : ℕ → ℕ → ℕ → ℕ → List ℕ
four a b c d = a ∷ b ∷ c ∷ d ∷ []

abbrev pub reserved_nonce_beginnings : List (List ℕ)
reserved_nonce_beginnings =
    four 0x48 0x45 0x41 0x44
    ∷ four 0x50 0x4f 0x53 0x54
    ∷ four 0x47 0x45 0x54 0x20
    ∷ four 0xee 0xee 0xee 0xee
    ∷ four 0xdd 0xdd 0xdd 0xdd
    ∷ four 0x16 0x03 0x01 0x02
    ∷ []

abbrev pub reserved_nonce_continues : List (List ℕ)
reserved_nonce_continues = four 0 0 0 0 ∷ []

unfoldable pub is_valid_nonce : List ℕ → Bool
is_valid_nonce nonce =
    if byte_at nonce 0 == 0xef
    then false
    else if is_among (take 4 nonce) reserved_nonce_beginnings
    then false
    else not (is_among (take 4 (drop 4 nonce)) reserved_nonce_continues)

-- The loop, on the first `fuel` draws; `draw i` is what the i-th call of `random_bytes(64)` gives,
-- which is 64 bytes (`copy_from_slice` panics on another length).
unfoldable pub generate_nonce : ℕ → (ℕ → List ℕ) → ℕ → Option (List ℕ)
generate_nonce zero draw i = none
generate_nonce (suc fuel) draw i =
    let rest = generate_nonce fuel draw (i + 1) in
    if is_valid_nonce (draw i) then some (draw i) else rest

-- `nonce[i..i + bytes.len()].copy_from_slice(&bytes)`.
abbrev pub overwrite : ℕ → List ℕ → List ℕ → List ℕ
overwrite i bytes nonce = take i nonce ++ (bytes ++ drop (i + length bytes) nonce)

unfoldable pub prepare_tg_nonce : List ℕ → ProtoTag → Option (List ℕ) → List ℕ
prepare_tg_nonce nonce tag key_iv =
    let tagged = overwrite 56 (to_bytes tag) nonce in
    elim key_iv [ none ↦ tagged | some k ↦ overwrite 8 (reverse k) tagged ]
