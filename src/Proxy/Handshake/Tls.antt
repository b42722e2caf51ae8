-- ===== src/Proxy/Handshake/Tls.antt =====
-- `handle_tls_handshake` of src/proxy/handshake.rs: a ClientHello is checked for a replay and against the
-- secrets, and answered. The answer that the TLS front makes of a cached site is an argument, and so
-- is what the socket says to the write and to the flush of the answer. The delay before the answer
-- is left out.
use Prim.Native.String.{String}
use v3mtp.Prelude.{
  ℕ, ◌+◌, Bool, true, false, List, [], ◌∷◌, Option, none, some, Result, ok, err, length, take, drop,
  ltb, ◌=?◌, bytes_eq, string_eq, if◌then◌else◌,
}
use v3mtp.Crypto.Random.{Source, SecureRandom}
use v3mtp.Protocol.Tls.{TlsValidation, validate_tls_handshake, tls_digest_len, tls_digest_pos}
use v3mtp.Protocol.Tls.ClientHello.{extract_alpn_from_client_hello}
use v3mtp.Protocol.Tls.ServerHello.{build_server_hello}
use v3mtp.Stream.Io.{IoError, AsyncRead, AsyncWrite}
use v3mtp.Stream.TlsStream
use v3mtp.Stream.TlsStream.{FakeTlsReader}
use v3mtp.Stream.TlsStream.Writer
use v3mtp.Stream.TlsStream.Writer.{FakeTlsWriter}
use v3mtp.Stats.Replay.{Lru, ReplayChecker, check_and_add_internal}
use v3mtp.Proxy.Handshake.{HandshakeResult, success, bad_client, io_error, HandshakeConfig}

abbrev pub tls_digest_half_len : ℕ
tls_digest_half_len = 16

abbrev pub h2 : List ℕ
h2 = 0x68 ∷ 0x32 ∷ []

abbrev pub http_1_1 : List ℕ
http_1_1 = 0x68 ∷ 0x74 ∷ 0x74 ∷ 0x70 ∷ 0x2f ∷ 0x31 ∷ 0x2e ∷ 0x31 ∷ []

abbrev offers : List ℕ → List (List ℕ) → Bool
offers protocol [] = false
offers protocol (p ∷ ps) = if p =? protocol then true else offers protocol ps

unfoldable pub select_alpn : Bool → List ℕ → Option (List ℕ)
select_alpn enforce handshake =
    let offered = extract_alpn_from_client_hello handshake in
    if enforce
    then if offers h2 offered
      then some h2
      else if offers http_1_1 offered
      then some http_1_1
      else none
    else none

-- The users whose secret is in hexadecimal.
unfoldable pub decoded_secrets :
    (String → Option (List ℕ)) → List (String × String) → List (String × List ℕ)
decoded_secrets hex_decode [] = []
decoded_secrets hex_decode ((name, hex) ∷ users) =
    let rest = decoded_secrets hex_decode users in
    elim (hex_decode hex) [ none ↦ rest | some bytes ↦ (name, bytes) ∷ rest ]

unfoldable pub secret_of : String → List (String × List ℕ) → Option (List ℕ)
secret_of user [] = none
secret_of user ((name, secret) ∷ secrets) =
    if name =? user then some secret else secret_of user secrets

module _ (sha256_hmac : List ℕ → List ℕ → List ℕ) (hex_decode : String → Option (List ℕ))
    (source : Source) (lru : Lru) (hash : List ℕ → ℕ) (io : AsyncRead) (out : AsyncWrite) where
  open io use {Input}
  open out use {Output}

  abbrev pub TlsResult : Type 0
  TlsResult = HandshakeResult ((FakeTlsReader io × FakeTlsWriter out) × String) Input Output

  -- The secret, the digest, the session and the protocol, to the answer.
  abbrev pub Emulation : Type 0
  Emulation =
      List ℕ
      → List ℕ
      → List ℕ
      → Option (List ℕ)
      → SecureRandom source
      → List ℕ × SecureRandom source

  abbrev pub answer_of :
      HandshakeConfig
      → Option Emulation
      → List ℕ
      → List ℕ
      → TlsValidation
      → SecureRandom source
      → List ℕ × SecureRandom source
  answer_of config (some emulate) handshake secret v rng =
      emulate secret v.digest v.session_id (select_alpn config.alpn_enforce handshake) rng
  answer_of config none handshake secret v rng =
      build_server_hello source sha256_hmac secret v.digest v.session_id config.fake_cert_len rng
        (select_alpn config.alpn_enforce handshake) config.tls_new_session_tickets

  -- The socket after `write_all` and `flush`, with the first error.
  abbrev pub greeted : Input → String → Result IoError (Unit {0}) × Output → TlsResult
  greeted reader user (ok _, writer) =
      success ((TlsStream.new io reader, Writer.new out writer), user)
  greeted reader user (err e, writer) = io_error e

  module _ (send : List ℕ → Output → Result IoError (Unit {0}) × Output) where
    abbrev pub answer_client :
        HandshakeConfig
        → Option Emulation
        → List ℕ
        → Input
        → Output
        → SecureRandom source
        → TlsValidation
        → List ℕ
        → TlsResult × SecureRandom source
    answer_client config emulation handshake reader writer rng v secret =
        let (response, rng') = answer_of config emulation handshake secret v rng in
        (greeted reader v.user (send response writer), rng')

    abbrev pub validated :
        HandshakeConfig
        → Option Emulation
        → List ℕ
        → Input
        → Output
        → SecureRandom source
        → Option TlsValidation
        → TlsResult × SecureRandom source
    validated config emulation handshake reader writer rng none = (bad_client reader writer, rng)
    validated config emulation handshake reader writer rng (some v) =
        elim (secret_of v.user (decoded_secrets hex_decode config.users)) [
          | none ↦ (bad_client reader writer, rng)
          | some secret ↦ answer_client config emulation handshake reader writer rng v secret
        ]

    -- `clock` is the time in seconds, `now` the instant.
    unfoldable pub handle_tls_handshake :
        ℕ
        → ℕ
        → List ℕ
        → Input
        → Output
        → HandshakeConfig
        → Option Emulation
        → ReplayChecker lru
        → SecureRandom source
        → (TlsResult × SecureRandom source) × ReplayChecker lru
    handle_tls_handshake clock now handshake reader writer config emulation checker rng =
        let digest_half = take tls_digest_half_len (drop tls_digest_pos handshake) in
        let (replayed, checker') = check_and_add_internal lru hash digest_half now checker in
        if ltb (length handshake) (tls_digest_pos + tls_digest_len + 1)
        then ((bad_client reader writer, rng), checker)
        else if replayed
        then ((bad_client reader writer, rng), checker')
        else (
          validated config emulation handshake reader writer rng (
              validate_tls_handshake sha256_hmac clock handshake
                (decoded_secrets hex_decode config.users) config.ignore_time_skew),
          checker',
        )
