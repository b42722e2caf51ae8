-- ===== src/Proxy/Handshake/Greeting.antt =====
-- A ClientHello that is accepted: its sender is answered, and the streams start on the socket.
use Prim.Native.String.{String}
use v3mtp.Prelude.{
  ℕ, ◌+◌, ◌^◌, ◌≤◌, ◌<◌, ◌≡◌, ◌⊎◌, refl, ap, ◌∙◌, arith, true, false, List, ◌∷◌, ◌++◌, Option, none,
  some, Result, ok, err, length, take, drop, byte_at, le→ltb_false,
}
use v3mtp.Crypto.Random.{Source, SecureRandom}
use v3mtp.Protocol.Tls.{TlsValidation, blank, validate_tls_handshake}
use v3mtp.Protocol.Tls.Sealed.{IsHmac, IsTimely, sealed}
use v3mtp.Protocol.Tls.Accepts.{validate_tls_handshake-accepts}
use v3mtp.Protocol.Tls.ServerHello.Digest.{build_server_hello-digest}
use v3mtp.Stream.Io.{IoError, AsyncRead, AsyncWrite}
use v3mtp.Stream.TlsStream
use v3mtp.Stream.TlsStream.Writer
use v3mtp.Stats.Replay.{Lru, ReplayChecker, check_and_add_internal}
use v3mtp.Proxy.Handshake.{HandshakeConfig, success, bad_client, io_error}
use v3mtp.Proxy.Handshake.Tls.{
  Emulation, TlsResult, answer_of, decoded_secrets, secret_of, select_alpn, greeted, validated,
  handle_tls_handshake,
}

-- What the check of a ClientHello gives for a user.
abbrev accepted : String → List ℕ → ℕ → TlsValidation
accepted user h ts = record {
  user = user;
  session_id = take (byte_at h 43) (drop 44 h);
  digest = take 32 (drop 11 h);
  timestamp = ts;
}

module _ (sha256_hmac : List ℕ → List ℕ → List ℕ) (hex_decode : String → Option (List ℕ))
    (source : Source) (lru : Lru) (hash : List ℕ → ℕ) (io : AsyncRead) (out : AsyncWrite)
    (send : List ℕ → out.Output → Result IoError (Unit {0}) × out.Output) where
  -- `send` is `write_all`, then `flush`: where it succeeds, the socket has taken all of its bytes.
  abbrev pub IsWriteAll : Type 0
  IsWriteAll =
      (bytes : List ℕ) (writer : out.Output)
      → ((send bytes writer).0 ≡ ok tt)
      → out.sent (send bytes writer).1 ≡ out.sent writer ++ bytes

  -- What a client with the secret checks of the answer to its ClientHello: the digest, behind eleven
  -- bytes, is over its own digest and the answer with zeros there. An answer of the TLS front is that
  -- which the front makes, for the same secret, digest, session and protocol.
  abbrev pub IsAnswer :
      Option (Emulation sha256_hmac hex_decode source lru hash io out)
      → HandshakeConfig
      → List ℕ
      → List ℕ
      → SecureRandom source
      → List ℕ
      → Type 0
  IsAnswer none config secret h rng answer =
      take 32 (drop 11 answer) ≡ sha256_hmac secret (take 32 (drop 11 h) ++ blank answer)
  IsAnswer (some emulate) config secret h rng answer =
      answer
      ≡ (emulate secret (take 32 (drop 11 h)) (take (byte_at h 43) (drop 44 h))
          (select_alpn config.alpn_enforce h) rng).0

  -- Either the socket has taken the answer, behind what it had, and both streams start on it, for the
  -- user, or its error is the result.
  abbrev pub IsGreeted :
      io.Input
      → out.Output
      → String
      → List ℕ
      → TlsResult sha256_hmac hex_decode source lru hash io out
      → Type 0
  IsGreeted reader writer user answer (success s) =
      (s.0.0 ≡ TlsStream.new io reader)
      × ((s.0.1 ≡ Writer.new out (send answer writer).1)
          × ((out.sent (send answer writer).1 ≡ out.sent writer ++ answer) × (s.1 ≡ user)))
  IsGreeted reader writer user answer (io_error e) = (send answer writer).0 ≡ err e
  IsGreeted reader writer user answer (bad_client r w) = ⊥

  greeted_lem :
      (reader : io.Input) (writer : out.Output) (user : String) (answer : List ℕ)
      (result : Result IoError (Unit {0}))
      → IsWriteAll
      → (send answer writer).0 ≡ result
      → IsGreeted reader writer user answer (
          greeted sha256_hmac hex_decode source lru hash io out reader user
            (result, (send answer writer).1))
  greeted_lem reader writer user answer (ok tt) all e = (refl, (refl, (all answer writer e, refl)))
  greeted_lem reader writer user answer (err k) all e = e

  answer_lem :
      (emulation : Option (Emulation sha256_hmac hex_decode source lru hash io out))
      (config : HandshakeConfig) (user : String) (secret h : List ℕ) (ts : ℕ)
      (rng : SecureRandom source)
      → IsHmac sha256_hmac
      → IsAnswer emulation config secret h rng
          (answer_of sha256_hmac hex_decode source lru hash io out config emulation h secret
            (accepted user h ts)
            rng).0
  answer_lem none config user secret h ts rng hmac =
      build_server_hello-digest source sha256_hmac secret (take 32 (drop 11 h))
        (take (byte_at h 43) (drop 44 h)) config.fake_cert_len rng
        (select_alpn config.alpn_enforce h) config.tls_new_session_tickets hmac
  answer_lem (some emulate) config user secret h ts rng hmac = refl

  -- Where HMAC gives 32 bytes, and a `send` that succeeds has written all of its bytes: a ClientHello
  -- that was sealed with the secret of a user, the first one under the name of that user, over a time
  -- of 32 bits that fits the clock or is counted from the start of the client (or any time, where it is
  -- ignored), that is long enough for its session, that no earlier secret accepts, and whose digest is
  -- new to the replay checker, is answered. The answer of the server has the digest that a client with
  -- the secret expects, over the client's own digest and the rest of the answer; with emulation, it is what
  -- the TLS front makes for this secret, digest, session and protocol. Where the socket takes it, it
  -- stands behind what was sent before, and both streams start there, for that user; else the
  -- socket's error is the result.
  pub handle_tls_handshake-accepts :
      (clock now : ℕ) (user : String) (secret before after : List ℕ) (ts : ℕ)
      (first last : List (String × List ℕ)) (reader : io.Input) (writer : out.Output)
      (config : HandshakeConfig)
      (emulation : Option (Emulation sha256_hmac hex_decode source lru hash io out))
      (checker : ReplayChecker lru) (rng : SecureRandom source)
      → IsHmac sha256_hmac
      → IsWriteAll
      → length before ≡ 11
      → ts < 2 ^ 32
      → (config.ignore_time_skew ≡ true) ⊎ IsTimely clock ts
      → decoded_secrets hex_decode config.users ≡ first ++ ((user, secret) ∷ last)
      → secret_of user (first ++ ((user, secret) ∷ last)) ≡ some secret
      → (let h = sealed sha256_hmac secret ts before after in
          44 + byte_at h 43 ≤ length h
          → validate_tls_handshake sha256_hmac clock h first config.ignore_time_skew ≡ none
          → (check_and_add_internal lru hash (take 16 (drop 11 h)) now checker).0 ≡ false
          → (answer : List ℕ) × (IsAnswer emulation config secret h rng answer
              × IsGreeted reader writer user answer
                  (handle_tls_handshake sha256_hmac hex_decode source lru hash io out send clock now
                    h reader writer config emulation checker rng).0.0))
  unfolding handle_tls_handshake
  handle_tls_handshake-accepts clock now user secret before after ts first last reader writer config
        emulation checker rng hmac all pos small timely known named fits none_first missing =
      let h = sealed sha256_hmac secret ts before after in
      let answer =
        (answer_of sha256_hmac hex_decode source lru hash io out config emulation h secret
          (accepted user h ts) rng).0 in
      (
        answer,
        (
          answer_lem emulation config user secret h ts rng hmac,
          rw
              (
                le→ltb_false (length h) 44 (omega (arith, fits)),
                missing,
                known,
                validate_tls_handshake-accepts sha256_hmac clock user secret before after ts
                    config.ignore_time_skew first last hmac pos small timely fits none_first,
                validated,
                ap (secret_of user) known ∙ named,
              )
              (greeted_lem reader writer user answer (send answer writer).0 all refl),
        ),
      )
