-- ===== src/Protocol/Obfuscation/Handshake.antt =====
-- The opening handshake: what a client sealed for a secret, the proxy finds with that secret.
use Prim.Native.String.{String}
use v3mtp.Prelude.{
  drop-drop, ℕ, ◌+◌, ◌^◌, ◌<◌, ◌≡◌, ◌∙◌, refl, ap, arith, List, [], ◌∷◌, ◌++◌, none, some, length,
  take, drop, to_le_bytes, from_le_bytes, from_le_bytes-to_le_bytes, All, IsByte, length-drop,
  All-append, to_le_bytes-bytes, take-length-append, drop-length-append, drop-append_le,
  take-append_le,
}
use v3mtp.Protocol.Constants.{ProtoTag, abridged, intermediate, secure, from_bytes, to_bytes}
use v3mtp.Crypto.Ctr.{
  apply_keystream, length-apply_keystream, apply_keystream-append, apply_keystream_cancel,
}
use v3mtp.Protocol.Obfuscation.{
  Primitives, dec_prekey_iv, key_of, iv_of, decrypted, params, params_from, try_secret,
  from_handshake,
}

pub from_bytes-to_bytes : (tag : ProtoTag) → from_bytes (to_bytes tag) ≡ some tag
unfolding from_bytes to_bytes
from_bytes-to_bytes abridged = refl
from_bytes-to_bytes intermediate = refl
from_bytes-to_bytes secure = refl

pub length-to_bytes : (tag : ProtoTag) → 4 ≡ length (to_bytes tag)
unfolding to_bytes
length-to_bytes tag = refl

tail-bytes :
    (tag : ProtoTag) (dc_idx : ℕ) (extra : List ℕ)
    → All IsByte extra
    → All IsByte (to_bytes tag ++ (to_le_bytes 2 dc_idx ++ extra))
unfolding to_bytes
tail-bytes tag dc_idx extra h =
    All-append IsByte (to_le_bytes 4 _) (to_le_bytes 2 dc_idx ++ extra) (to_le_bytes-bytes 4 _)
      (All-append IsByte (to_le_bytes 2 dc_idx) extra (to_le_bytes-bytes 2 dc_idx) h)

module _ (prims : Primitives) where
  open prims use {keystream, keystream-byte}

  -- The stream that a client starts for a secret, from the first 56 bytes that it sends.
  abbrev pub stream_of : List ℕ → List ℕ → ℕ → ℕ
  stream_of front secret =
      keystream (key_of prims (dec_prekey_iv prims front) secret)
        (iv_of prims (dec_prekey_iv prims front))

  -- A client's handshake: 56 bytes in clear, and the others, `tail`, encrypted in their places.
  abbrev pub sealed : List ℕ → List ℕ → List ℕ → List ℕ
  sealed front secret tail = front ++ apply_keystream (stream_of front secret) 56 tail

  prekey_of-sealed :
      (front secret tail : List ℕ)
      → length front ≡ 56
      → dec_prekey_iv prims (sealed front secret tail) ≡ dec_prekey_iv prims front
  prekey_of-sealed front secret tail e =
      let after : length (drop 8 front) ≡ 48 = omega (arith, length-drop 8 front) in
      rw (drop-append_le 8 front (apply_keystream (stream_of front secret) 56 tail) (omega arith)) (
        take-append_le 48 (drop 8 front) (apply_keystream (stream_of front secret) 56 tail)
          (omega (arith, after)))

  decrypted-sealed :
      (front secret tail : List ℕ)
      → length front ≡ 56
      → All IsByte tail
      → drop 56 (decrypted prims (sealed front secret tail) secret) ≡ tail
  decrypted-sealed front secret tail e h =
      let stream = stream_of front secret in
      let enc = apply_keystream stream 56 tail in
      ap
        (λ k.
          drop 56
            (apply_keystream (keystream (key_of prims k secret) (iv_of prims k)) 0 (front ++ enc)))
        (prekey_of-sealed front secret tail e)
      ∙ ap (drop 56) (apply_keystream-append stream 0 front enc)
      ∙ drop-length-append 56 (apply_keystream stream 0 front)
          (apply_keystream stream (0 + length front) enc)
          (omega (arith, length-apply_keystream stream 0 front))
      ∙ ap (λ n. apply_keystream stream n enc) (omega arith)
      ∙ apply_keystream_cancel stream 56 tail (keystream-byte _ _) h

  -- The 8 bytes behind the 56: a tag, a datacentre and two bytes more.
  abbrev pub tail_of : ProtoTag → ℕ → List ℕ → List ℕ
  tail_of tag dc_idx extra = to_bytes tag ++ (to_le_bytes 2 dc_idx ++ extra)

  opened :
      (handshake secret : List ℕ) (tag : ProtoTag) (dc_idx : ℕ)
      → from_bytes (take 4 (drop 56 (decrypted prims handshake secret))) ≡ some tag
      → from_le_bytes (take 2 (drop 60 (decrypted prims handshake secret))) ≡ dc_idx
      → try_secret prims handshake secret ≡ some (params prims handshake secret tag dc_idx)
  unfolding try_secret
  opened handshake secret tag dc_idx p q = ground arith

  try_secret-sealed :
      (front secret extra : List ℕ) (tag : ProtoTag) (dc_idx : ℕ)
      → length front ≡ 56
      → All IsByte extra
      → dc_idx < 2 ^ 16
      → let handshake = sealed front secret (tail_of tag dc_idx extra) in
        try_secret prims handshake secret ≡ some (params prims handshake secret tag dc_idx)
  try_secret-sealed front secret extra tag dc_idx e h d =
      let tail = tail_of tag dc_idx extra in
      let plain = decrypted prims (sealed front secret tail) secret in
      let found : drop 56 plain ≡ tail =
        decrypted-sealed front secret tail e (tail-bytes tag dc_idx extra h) in
      let behind : drop 60 plain ≡ to_le_bytes 2 dc_idx ++ extra =
        drop-drop 56 4 plain
        ∙ ap (drop 4) found
        ∙ drop-length-append 4 (to_bytes tag) (to_le_bytes 2 dc_idx ++ extra)
            (length-to_bytes tag) in
      let word : take 4 (drop 56 plain) ≡ to_bytes tag =
        ap (take 4) found
        ∙ take-length-append 4 (to_bytes tag) (to_le_bytes 2 dc_idx ++ extra)
            (length-to_bytes tag) in
      opened (sealed front secret tail) secret tag dc_idx
        (ap from_bytes word ∙ from_bytes-to_bytes tag)
        (ap (λ bs. from_le_bytes (take 2 bs)) behind
          ∙ ap from_le_bytes (take-length-append 2 (to_le_bytes 2 dc_idx) extra refl)
          ∙ from_le_bytes-to_le_bytes 2 dc_idx d)

  skipped :
      (handshake : List ℕ) (before secrets : List (String × List ℕ))
      → All (λ u. try_secret prims handshake u.1 ≡ none) before
      → from_handshake prims handshake (before ++ secrets) ≡ from_handshake prims handshake secrets
  unfolding from_handshake
  skipped handshake [] secrets h = refl
  skipped handshake ((name, secret) ∷ before) secrets h =
      rw (h.0, from_handshake) (skipped handshake before secrets h.1)

  -- A client's handshake for a secret, where no secret before it in the list fits, gives the user
  -- of the secret, with the tag and the datacentre that the client sealed, and with the keys of
  -- both directions: those of the bytes 8 to 56 as they came, and those of them in reverse.
  pub from_handshake-sealed :
      (front secret extra : List ℕ) (tag : ProtoTag) (dc_idx : ℕ) (user : String)
      (before after : List (String × List ℕ))
      → length front ≡ 56
      → All IsByte extra
      → dc_idx < 2 ^ 16
      → let handshake = sealed front secret (tail_of tag dc_idx extra) in
        All (λ u. try_secret prims handshake u.1 ≡ none) before
        → from_handshake prims handshake (before ++ ((user, secret) ∷ after))
          ≡ some (params prims front secret tag dc_idx, user)
  unfolding from_handshake
  from_handshake-sealed front secret extra tag dc_idx user before after e h d none_before =
      let tail = tail_of tag dc_idx extra in
      skipped (sealed front secret tail) before ((user, secret) ∷ after) none_before
      ∙ rw (try_secret-sealed front secret extra tag dc_idx e h d, from_handshake)
          (ap (λ k. some (params_from prims k secret tag dc_idx, user))
            (prekey_of-sealed front secret tail e))
