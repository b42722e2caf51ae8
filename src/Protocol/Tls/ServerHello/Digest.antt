-- ===== src/Protocol/Tls/ServerHello/Digest.antt =====
-- The digest of the answer.
use v3mtp.Prelude.{
  ℕ, ◌≡◌, refl, sym, ap, ap₂, ◌∙◌, List, ◌++◌, Option, length, take, drop, drop-drop, replicate,
  take-length-append, drop-length-append,
}
use v3mtp.Crypto.Random.{Source, SecureRandom}
use v3mtp.Protocol.Tls.{blank}
use v3mtp.Protocol.Tls.Sealed.{IsHmac}
use v3mtp.Protocol.Tls.ServerHello.{
  new, with_x25519_key, with_tls13_version, with_alpn, build_message, build_record, records,
  build_server_hello,
}

module _ (before digest after : List ℕ) (eleven : length before ≡ 11)
    (size : length digest ≡ 32) where
  take_11 : take 11 (before ++ (digest ++ after)) ≡ before
  take_11 = take-length-append 11 before (digest ++ after) (sym eleven)

  drop_11 : drop 11 (before ++ (digest ++ after)) ≡ digest ++ after
  drop_11 = drop-length-append 11 before (digest ++ after) (sym eleven)

  digest_at : take 32 (drop 11 (before ++ (digest ++ after))) ≡ digest
  digest_at = ap (take 32) drop_11 ∙ take-length-append 32 digest after (sym size)

  drop_43 : drop 43 (before ++ (digest ++ after)) ≡ after
  drop_43 =
      drop-drop 11 32 (before ++ (digest ++ after))
      ∙ ap (drop 32) drop_11
      ∙ drop-length-append 32 digest after (sym size)

  blank_parts : blank (before ++ (digest ++ after)) ≡ before ++ (replicate 32 0 ++ after)
  blank_parts = ap₂ (λ xs ys. xs ++ (replicate 32 0 ++ ys)) take_11 drop_43

module _ (source : Source) where
  -- The response leaves zeros for the digest, behind eleven bytes.
  records-blank :
      (session_id : List ℕ) (fake_cert_len : ℕ) (rng : SecureRandom source) (alpn : Option (List ℕ))
      (tickets : ℕ)
      → let response = (records source session_id fake_cert_len rng alpn tickets).0 in
        (blank response ≡ response) × (length (take 11 response) ≡ 11)
  unfolding records build_record build_message new with_x25519_key with_tls13_version with_alpn
  records-blank session_id fake_cert_len rng alpn tickets = (refl, refl)

  -- Where HMAC gives 32 bytes: the digest in the answer is the HMAC, under the secret, of the
  -- client's digest and the answer with zeros in place of its own digest.
  pub build_server_hello-digest :
      (sha256_hmac : List ℕ → List ℕ → List ℕ) (secret client_digest session_id : List ℕ)
      (fake_cert_len : ℕ) (rng : SecureRandom source) (alpn : Option (List ℕ)) (tickets : ℕ)
      → IsHmac sha256_hmac
      → (let answer =
            (build_server_hello source sha256_hmac secret client_digest session_id fake_cert_len rng
              alpn tickets).0 in
          take 32 (drop 11 answer) ≡ sha256_hmac secret (client_digest ++ blank answer))
  unfolding build_server_hello
  build_server_hello-digest sha256_hmac secret client_digest session_id fake_cert_len rng alpn
        tickets hmac =
      let response = (records source session_id fake_cert_len rng alpn tickets).0 in
      let digest = sha256_hmac secret (client_digest ++ response) in
      let whole = records-blank session_id fake_cert_len rng alpn tickets in
      let size = (hmac secret (client_digest ++ response)).0 in
      digest_at (take 11 response) digest (drop 43 response) whole.1 size
      ∙ ap (λ xs. sha256_hmac secret (client_digest ++ xs))
          (sym (blank_parts (take 11 response) digest (drop 43 response) whole.1 size ∙ whole.0))
