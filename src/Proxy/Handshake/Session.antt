-- ===== src/Proxy/Handshake/Session.antt =====
-- An accepted opening: the loop over the users agrees with `ObfuscationParams::from_handshake`, and the
-- streams that it gives carry on where the client does.
use Prim.Native.String.{String}
use v3mtp.Prelude.{
  ℕ, suc, ◌^◌, ◌<◌, ◌≡◌, refl, ap, ◌∙◌, arith, Bool, true, false, List, [], ◌∷◌, ◌++◌, Option, none,
  some, Option-cases, inl, inr, ok, length, length-append, take, drop, All, IsByte,
}
use v3mtp.Network.Addr.{SocketAddr}
use v3mtp.Crypto.Ctr.{apply_keystream, length-apply_keystream, apply_keystream_cancel}
use v3mtp.Protocol.Constants.{ProtoTag, from_bytes, to_bytes}
use v3mtp.Protocol.Obfuscation.{
  Primitives, ObfuscationParams, dec_prekey_iv, key_of, iv_of, decrypted, params, try_secret,
  from_handshake,
}
use v3mtp.Protocol.Obfuscation.Handshake.{sealed, stream_of, tail_of, from_handshake-sealed}
use v3mtp.Stream.Io.{AsyncRead, AsyncWrite}
use v3mtp.Stream.TlsStream.Reader.Exact.{Willing}
use v3mtp.Stream.CryptoStream.Reader
use v3mtp.Stream.CryptoStream.Reader.{CryptoReader, read_exact_decrypt}
use v3mtp.Stream.CryptoStream.Reader.Exact.{ExactTold, read_exact_decrypt_lem}
use v3mtp.Stream.CryptoStream.Tunnel.{exactly}
use v3mtp.Stream.CryptoStream.Writer
use v3mtp.Stream.CryptoStream.Writer.{CryptoWriter}
use v3mtp.Stats.Replay.{Lru, ReplayChecker, check_and_add_internal}
use v3mtp.Proxy.Handshake.{
  success, HandshakeConfig, HandshakeSuccess, ProxyModes, mode_ok, try_decoded, try_user,
  find_success, handle_mtproto_handshake,
}
use v3mtp.Proxy.Handshake.Tls.{decoded_secrets}

-- With what the two add to the parameters.
abbrev pub success_of : SocketAddr → Bool → String → ObfuscationParams → HandshakeSuccess
success_of peer is_tls user p = record {
  user = user;
  dc_idx = p.dc_idx;
  proto_tag = p.proto_tag;
  dec_key = p.decrypt_key;
  dec_iv = p.decrypt_iv;
  enc_key = p.encrypt_key;
  enc_iv = p.encrypt_iv;
  peer = peer;
  is_tls = is_tls;
}

abbrev pub successes :
    SocketAddr → Bool → Option (ObfuscationParams × String) → Option HandshakeSuccess
successes peer is_tls none = none
successes peer is_tls (some (p, user)) = some (success_of peer is_tls user p)

module _ (prims : Primitives) (hex_decode : String → Option (List ℕ)) where
  abbrev admitted : SocketAddr → Bool → String → Option ObfuscationParams → Option HandshakeSuccess
  admitted peer is_tls user none = none
  admitted peer is_tls user (some p) = some (success_of peer is_tls user p)

  module _ (modes : ProxyModes) (is_tls : Bool) (peer : SocketAddr) (handshake : List ℕ)
      (all_on : (tag : ProtoTag) → mode_ok modes is_tls tag ≡ true) where
    decoded-agrees :
        (user : String) (secret : List ℕ)
        → try_decoded prims hex_decode modes is_tls peer handshake user secret
          ≡ admitted peer is_tls user (try_secret prims handshake secret)
    unfolding try_decoded try_secret
    decoded-agrees user secret =
        elim (Option-cases (from_bytes (take 4 (drop 56 (decrypted prims handshake secret))))) [
          | inl nothing ↦ rw (nothing, try_decoded, try_secret) refl
          | inr tag ↦ rw (tag.1, all_on tag.0, try_decoded, try_secret) refl
        ]

    -- Where every mode is enabled, the loop over the users finds what the unified
    -- `ObfuscationParams::from_handshake` finds among the secrets that are in hexadecimal: the same user, keys,
    -- tag and datacentre, or nobody.
    pub find_success-from_handshake :
        (users : List (String × String))
        → find_success prims hex_decode modes is_tls peer handshake users
          ≡ successes peer is_tls
              (from_handshake prims handshake (decoded_secrets hex_decode users))
    unfolding find_success from_handshake decoded_secrets try_user
    find_success-from_handshake [] = refl
    find_success-from_handshake ((user, hex) ∷ users) = elim (Option-cases (hex_decode hex)) [
      | inl nothing ↦
          rw (nothing, find_success, try_user, decoded_secrets) (find_success-from_handshake users)
      | inr secret ↦ elim (Option-cases (try_secret prims handshake secret.0)) [
        | inl refused ↦
            rw
              (
                secret.1,
                decoded-agrees user secret.0,
                refused,
                find_success,
                try_user,
                decoded_secrets,
                from_handshake,
              )
              (find_success-from_handshake users)
        | inr p ↦
            rw
              (
                secret.1,
                decoded-agrees user secret.0,
                p.1,
                find_success,
                try_user,
                decoded_secrets,
                from_handshake,
              )
              refl
      ]
    ]

module _ (prims : Primitives) (hex_decode : String → Option (List ℕ)) (lru : Lru)
    (hash : List ℕ → ℕ) (io : AsyncRead) (out : AsyncWrite) where
  length-sealed :
      (front secret extra : List ℕ) (tag : ProtoTag) (dc_idx : ℕ)
      → length front ≡ 56
      → length extra ≡ 2
      → length (sealed prims front secret (tail_of prims tag dc_idx extra)) ≡ 64
  unfolding to_bytes
  length-sealed front secret extra tag dc_idx f e =
      let tail = tail_of prims tag dc_idx extra in
      let hidden = apply_keystream (stream_of prims front secret) 56 tail in
      omega (
        arith,
        f,
        e,
        length-append front hidden,
        length-apply_keystream (stream_of prims front secret) 56 tail,
      )

  read_session :
      (stream : ℕ → ℕ) (reader : io.Input) (payload : List ℕ)
      → io.rest reader ≡ apply_keystream stream 64 payload
      → ((k : ℕ) → stream k < 256)
      → All IsByte payload
      → Willing io
      → (r : CryptoReader io) × (read_exact_decrypt io stream
            (suc (length payload))
            (length payload)
            (Reader.new io reader 64)
          ≡ some (ok payload, r))
  read_session stream reader payload on_wire small bytes willing =
      let n = length payload in
      let plain : apply_keystream stream 64 (io.rest reader) ≡ payload =
        ap (apply_keystream stream 64) on_wire
        ∙ apply_keystream_cancel stream 64 payload small bytes in
      let told : ExactTold io stream n payload
          (read_exact_decrypt io stream (suc n) n (Reader.new io reader 64)) =
        rw plain at (read_exact_decrypt_lem io stream n (Reader.new io reader 64) willing tt) in
      exactly io stream n payload (read_exact_decrypt io stream (suc n) n (Reader.new io reader 64))
        refl told

  -- An opening that a client sealed with the secret of a user, where every mode is enabled, no secret before that one
  -- fits, and the replay checker does not know it, is accepted for that user, with the tag and the datacentre
  -- that the client sealed. What the client encrypts next, where it is in its own stream, is what
  -- `read_exact_decrypt` reads from the reader that the handshake gives, over an upstream that is never pending and never fails.
  pub accepted_session :
      (now : ℕ) (front secret extra payload : List ℕ) (tag : ProtoTag) (dc_idx : ℕ) (user : String)
      (before after : List (String × List ℕ)) (reader : io.Input) (writer : out.Output)
      (peer : SocketAddr) (config : HandshakeConfig) (checker : ReplayChecker lru) (is_tls : Bool)
      → length front ≡ 56
      → length extra ≡ 2
      → All IsByte extra
      → dc_idx < 2 ^ 16
      → ((t : ProtoTag) → mode_ok config.modes is_tls t ≡ true)
      → decoded_secrets hex_decode config.users ≡ before ++ ((user, secret) ∷ after)
      → (let handshake = sealed prims front secret (tail_of prims tag dc_idx extra) in
          let s = success_of peer is_tls user (params prims front secret tag dc_idx) in
          let rest = Reader.new io reader 64 in
          All (λ u. try_secret prims handshake u.1 ≡ none) before
          → (check_and_add_internal lru hash (take 48 (drop 8 handshake)) now checker).0 ≡ false
          → io.rest reader ≡ apply_keystream (stream_of prims front secret) 64 payload
          → All IsByte payload
          → Willing io
          → ((handle_mtproto_handshake prims hex_decode lru hash io out now handshake reader writer
                peer config checker is_tls).0
              ≡ success ((rest, Writer.new out writer 0 config.crypto_pending_buffer), s))
            × ((r : CryptoReader io) × (read_exact_decrypt io
                    (prims.keystream s.dec_key s.dec_iv)
                    (suc (length payload))
                    (length payload)
                    rest
                  ≡ some (ok payload, r))))
  unfolding handle_mtproto_handshake
  accepted_session now front secret extra payload tag dc_idx user before after reader writer peer
        config checker is_tls f e extra_bytes small_dc all_on known none_before missing on_wire
        bytes willing =
      let handshake = sealed prims front secret (tail_of prims tag dc_idx extra) in
      let found : find_success prims hex_decode config.modes is_tls peer handshake config.users
          ≡ some (success_of peer is_tls user (params prims front secret tag dc_idx)) =
        find_success-from_handshake prims hex_decode config.modes is_tls peer handshake all_on
          config.users
        ∙ ap (λ us. successes peer is_tls (from_handshake prims handshake us)) known
        ∙ ap (successes peer is_tls) (
            from_handshake-sealed prims front secret extra tag dc_idx user before after f
              extra_bytes small_dc none_before) in
      (
        rw (missing, found, length-sealed front secret extra tag dc_idx f e) refl,
        read_session (stream_of prims front secret) reader payload on_wire
            (prims.keystream-byte (key_of prims (dec_prekey_iv prims front) secret)
              (iv_of prims (dec_prekey_iv prims front)))
            bytes willing,
      )
