-- ===== src/MiddleProxy/Codec/Payloads.antt =====
-- The payloads of the two handshake frames of src/transport/middle_proxy/codec.rs. The process id
-- and the clock are arguments. An IPv4 address is its four octets.
use v3mtp.Prelude.{
  ℕ, ◌%◌, ◌^◌, ◌<◌, ◌≡◌, ap, ap₂, sym, arith, true, false, List, ◌++◌, Result, ok, err, ◌>>=◌,
  length, take, drop, length-append, take-length-append, to_le_bytes, from_le_bytes,
  from_le_bytes-to_le_bytes, ltb, ◌==◌, if◌then◌else◌,
}
use v3mtp.MiddleProxy.Codec.{RpcChecksumMode, crc32, crc32c, from_handshake_flags, advertised_flags}

abbrev rpc_nonce : ℕ
rpc_nonce = 0x7acb87aa

abbrev rpc_handshake : ℕ
rpc_handshake = 0x7682eef5

abbrev rpc_crypto_aes : ℕ
rpc_crypto_aes = 1

pub data HandshakeError : Type 0 where
  nonce_too_short : ℕ → HandshakeError
  expected_nonce : ℕ → HandshakeError
  bad_payload_len : ℕ → HandshakeError
  expected_handshake : ℕ → HandshakeError

unfoldable pub build_nonce_payload : ℕ → ℕ → List ℕ → List ℕ
build_nonce_payload key_selector crypto_ts nonce =
    to_le_bytes 4 rpc_nonce
    ++ (to_le_bytes 4 key_selector
        ++ (to_le_bytes 4 rpc_crypto_aes ++ (to_le_bytes 4 crypto_ts ++ nonce)))

-- `u32::from_le_bytes(d[i..i + 4])`.
abbrev word_at : ℕ → List ℕ → ℕ
word_at i d = from_le_bytes (take 4 (drop i d))

pub record NoncePayload : Type 0 where
  pub key_select : ℕ
  pub schema : ℕ
  pub ts : ℕ
  pub nonce : List ℕ

unfoldable pub parse_nonce_payload : List ℕ → Result HandshakeError NoncePayload
parse_nonce_payload d =
    if ltb (length d) 32
    then err (nonce_too_short (length d))
    else if word_at 0 d == rpc_nonce
    then ok (record {
      key_select = word_at 4 d;
      schema = word_at 8 d;
      ts = word_at 12 d;
      nonce = take 16 (drop 16 d);
    })
    else err (expected_nonce (word_at 0 d))

pub record Endpoint : Type 0 where
  pub ip : List ℕ
  pub port : ℕ

unfoldable pub build_handshake_payload : ℕ → ℕ → Endpoint → Endpoint → ℕ → List ℕ
build_handshake_payload pid utime our peer flags =
    to_le_bytes 4 rpc_handshake
    ++ (to_le_bytes 4 flags
        ++ (our.ip
            ++ (to_le_bytes 2 our.port
                ++ (to_le_bytes 2 (pid % 2 ^ 16)
                    ++ (to_le_bytes 4 (utime % 2 ^ 32)
                        ++ (peer.ip
                            ++ (to_le_bytes 2 peer.port
                                ++ (to_le_bytes 2 0 ++ to_le_bytes 4 0))))))))

unfoldable pub parse_handshake_flags : List ℕ → Result HandshakeError ℕ
parse_handshake_flags payload =
    if length payload == 32
    then (if word_at 0 payload == rpc_handshake
        then ok (word_at 4 payload)
        else err (expected_handshake (word_at 0 payload)))
    else err (bad_payload_len (length payload))

-- A nonce payload, alone or with more behind it, reads back as what it was built from, under the
-- AES schema.
pub parse_nonce-build :
    (key_selector crypto_ts : ℕ) (nonce extra : List ℕ)
    → key_selector < 2 ^ 32
    → crypto_ts < 2 ^ 32
    → length nonce ≡ 16
    → parse_nonce_payload (build_nonce_payload key_selector crypto_ts nonce ++ extra)
      ≡ ok (record {
        key_select = key_selector;
        schema = rpc_crypto_aes;
        ts = crypto_ts;
        nonce = nonce;
      })
unfolding parse_nonce_payload build_nonce_payload
parse_nonce-build key_selector crypto_ts nonce extra k t n =
    let whole = take-length-append 16 nonce extra (sym n) in
    let long : ltb (length (build_nonce_payload key_selector crypto_ts nonce ++ extra)) 32 ≡ false =
      ground (arith, length-append nonce extra) in
    rw (long, whole)
      (ap₂ (λ a b. ok (record { key_select = a; schema = 1; ts = b; nonce = nonce }))
        (from_le_bytes-to_le_bytes 4 key_selector k) (from_le_bytes-to_le_bytes 4 crypto_ts t))

parse_handshake_flags-build :
    (pid utime flags : ℕ) (our peer : Endpoint)
    → flags < 2 ^ 32
    → length our.ip ≡ 4
    → length peer.ip ≡ 4
    → parse_handshake_flags (build_handshake_payload pid utime our peer flags) ≡ ok flags
unfolding parse_handshake_flags build_handshake_payload
parse_handshake_flags-build pid utime flags our peer f o p =
    let size : (length (build_handshake_payload pid utime our peer flags) == 32) ≡ true = ground (
      arith,
      length-append our.ip (
          to_le_bytes 2 our.port
          ++ (to_le_bytes 2 (pid % 2 ^ 16)
              ++ (to_le_bytes 4 (utime % 2 ^ 32)
                  ++ (peer.ip
                      ++ (to_le_bytes 2 peer.port ++ (to_le_bytes 2 0 ++ to_le_bytes 4 0)))))),
      length-append peer.ip (to_le_bytes 2 peer.port ++ (to_le_bytes 2 0 ++ to_le_bytes 4 0)),
    ) in
    rw size (ap ok (from_le_bytes-to_le_bytes 4 flags f))

-- Between any two endpoints, the checksum mode that one end advertises in its handshake is the
-- mode that the other end takes from the flags.
pub negotiated_mode :
    (pid utime : ℕ) (our peer : Endpoint) (mode : RpcChecksumMode)
    → length our.ip ≡ 4
    → length peer.ip ≡ 4
    → (parse_handshake_flags (build_handshake_payload pid utime our peer (advertised_flags mode))
        >>= λ flags. ok (from_handshake_flags flags))
      ≡ ok mode
unfolding advertised_flags from_handshake_flags
negotiated_mode pid utime our peer crc32 o p =
    rw (parse_handshake_flags-build pid utime 0 our peer (omega arith) o p)
negotiated_mode pid utime our peer crc32c o p =
    rw (parse_handshake_flags-build pid utime 0x800 our peer (omega arith) o p)
