-- ===== src/Protocol/Tls/ServerHello.antt =====
-- The answer to a ClientHello, of src/protocol/tls.rs: `TlsExtensionBuilder`, `ServerHelloBuilder`
-- and `build_server_hello`, with HMAC-SHA-256 as an argument. A `u8` that counts is below 256.
pub mod Digest
mod Examples
use v3mtp.Prelude.{
  ℕ, zero, suc, ◌+◌, ◌-◌, ◌*◌, ◌%◌, ◌^◌, min, max, List, [], ◌∷◌, ◌++◌, Option, none, some, length,
  take, drop, replicate, to_be_bytes, from_le_bytes, to_le_bytes,
}
use v3mtp.Crypto.Random.{Source, SecureRandom, bytes, range}
use v3mtp.Protocol.Tls.{tls_digest_len, tls_digest_pos}
use v3mtp.Stream.TlsStream.{
  tls_version, tls_record_handshake, tls_record_change_cipher, tls_record_application,
}

abbrev pub key_share : ℕ
key_share = 0x0033

abbrev pub supported_versions : ℕ
supported_versions = 0x002b

abbrev pub alpn_type : ℕ
alpn_type = 0x0010

abbrev pub x25519 : ℕ
x25519 = 0x001d

abbrev pub tls_aes_128_gcm_sha256 : List ℕ
tls_aes_128_gcm_sha256 = 0x13 ∷ 0x01 ∷ []

-- The extensions of a `TlsExtensionBuilder`, before and after each call.
unfoldable pub add_key_share : List ℕ → List ℕ → List ℕ
add_key_share public_key extensions =
    extensions
    ++ (to_be_bytes 2 key_share
        ++ (to_be_bytes 2 (2 + 2 + 32)
            ++ (to_be_bytes 2 x25519 ++ (to_be_bytes 2 32 ++ public_key))))

unfoldable pub add_supported_versions : ℕ → List ℕ → List ℕ
add_supported_versions version extensions =
    extensions ++ (to_be_bytes 2 supported_versions ++ (to_be_bytes 2 2 ++ to_be_bytes 2 version))

unfoldable pub add_alpn : List ℕ → List ℕ → List ℕ
add_alpn proto extensions =
    let proto_len = length proto % 2 ^ 8 in
    let list_len = 1 + proto_len in
    extensions
    ++ (to_be_bytes 2 alpn_type
        ++ (to_be_bytes 2 (2 + list_len) ++ (to_be_bytes 2 list_len ++ (proto_len ∷ proto))))

pub record ServerHelloBuilder : Type 0 where
  pub random : List ℕ
  pub session_id : List ℕ
  pub cipher_suite : List ℕ
  pub compression : ℕ
  pub extensions : List ℕ
  pub alpn : Option (List ℕ)

unfoldable pub new : List ℕ → ServerHelloBuilder
new session_id = record {
  random = replicate 32 0;
  session_id = session_id;
  cipher_suite = tls_aes_128_gcm_sha256;
  compression = 0;
  extensions = [];
  alpn = none;
}

unfoldable pub with_x25519_key : List ℕ → ServerHelloBuilder → ServerHelloBuilder
with_x25519_key key b = record b { extensions = add_key_share key b.extensions }

unfoldable pub with_tls13_version : ServerHelloBuilder → ServerHelloBuilder
with_tls13_version b = record b { extensions = add_supported_versions 0x0304 b.extensions }

unfoldable pub with_alpn : Option (List ℕ) → ServerHelloBuilder → ServerHelloBuilder
with_alpn proto b = record b { alpn = proto }

abbrev pub all_extensions : Option (List ℕ) → List ℕ → List ℕ
all_extensions none extensions = extensions
all_extensions (some proto) extensions = add_alpn proto extensions

unfoldable pub build_message : ServerHelloBuilder → List ℕ
build_message b =
    let extensions = all_extensions b.alpn b.extensions in
    let body_len = 2 + 32 + 1 + length b.session_id + 2 + 1 + 2 + length extensions in
    (0x02 ∷ drop 1 (to_be_bytes 4 (body_len % 2 ^ 32)))
    ++ (tls_version
        ++ (b.random
            ++ ((length b.session_id % 2 ^ 8 ∷ b.session_id)
                ++ (b.cipher_suite
                    ++ (b.compression ∷ to_be_bytes 2 (length extensions % 2 ^ 16)
                        ++ extensions)))))

-- A record of the type and the version of TLS 1.2 around a payload.
abbrev pub record_of : ℕ → List ℕ → List ℕ
record_of record_type payload =
    (record_type ∷ tls_version) ++ (to_be_bytes 2 (length payload % 2 ^ 16) ++ payload)

unfoldable pub build_record : ServerHelloBuilder → List ℕ
build_record b = record_of tls_record_handshake (build_message b)

abbrev pub change_cipher_spec : List ℕ
change_cipher_spec = (tls_record_change_cipher ∷ tls_version) ++ (0x00 ∷ 0x01 ∷ 0x01 ∷ [])

-- `copy_from_slice` at the place of the digest.
abbrev pub insert_digest : List ℕ → List ℕ → List ℕ
insert_digest digest response =
    take tls_digest_pos response ++ (digest ++ drop (tls_digest_pos + tls_digest_len) response)

module _ (source : Source) where
  unfoldable pub gen_fake_x25519_key : SecureRandom source → List ℕ × SecureRandom source
  gen_fake_x25519_key rng =
      let (n_bytes, rng') = bytes source 32 rng in
      let n = from_le_bytes n_bytes in (to_le_bytes 32 (n * n % (2 ^ 255 - 19)), rng')

  unfoldable pub new_tickets : ℕ → SecureRandom source → List ℕ × SecureRandom source
  new_tickets zero rng = ([], rng)
  new_tickets (suc n) rng =
      let (extra, rng') = range source 48 rng in
      let (ticket, rng'') = bytes source (extra + 48) rng' in
      let (tickets, rng''') = new_tickets n rng'' in
      (record_of tls_record_application ticket ++ tickets, rng''')

  -- The response before its digest is inserted.
  unfoldable pub records :
      List ℕ → ℕ → SecureRandom source → Option (List ℕ) → ℕ → List ℕ × SecureRandom source
  records session_id fake_cert_len rng alpn new_session_tickets =
      let (x25519_key, rng') = gen_fake_x25519_key rng in
      let server_hello =
        build_record
          (with_alpn alpn (with_tls13_version (with_x25519_key x25519_key (new session_id)))) in
      let (fake_cert, rng'') = bytes source (min (max fake_cert_len 64) 16640) rng' in
      let (tickets, rng''') = new_tickets new_session_tickets rng'' in
      (
        server_hello
            ++ (change_cipher_spec ++ (record_of tls_record_application fake_cert ++ tickets)),
        rng''',
      )

  module _ (sha256_hmac : List ℕ → List ℕ → List ℕ) where
    unfoldable pub build_server_hello :
        List ℕ
        → List ℕ
        → List ℕ
        → ℕ
        → SecureRandom source
        → Option (List ℕ)
        → ℕ
        → List ℕ × SecureRandom source
    build_server_hello secret client_digest session_id fake_cert_len rng alpn new_session_tickets =
        let (response, rng') = records session_id fake_cert_len rng alpn new_session_tickets in
        (insert_digest (sha256_hmac secret (client_digest ++ response)) response, rng')
