-- ===== src/Proxy/Handshake.antt =====
-- `handle_mtproto_handshake` of src/proxy/handshake.rs: the secrets of the users are tried on the 64
-- bytes that open a connection, after the replay check. The decoder of the crate hex is an argument,
-- with SHA-256 and the keystream (`Primitives`), the cache and the hasher of the replay checker and the
-- instant of the call. The order of `users` is that in which the map gives them.
pub mod Replay
pub mod Session
pub mod Nonce
pub mod Routed
pub mod Datacentre
pub mod Greeting
pub mod Tls
mod Examples
use Prim.Native.String.{String}
use v3mtp.Prelude.{
  ℕ, Bool, true, false, ◌||◌, List, [], ◌∷◌, ◌++◌, reverse, Option, none, some, length, take, drop,
  from_be_bytes, from_le_bytes, if◌then◌else◌,
}
use v3mtp.Network.Addr.{SocketAddr}
use v3mtp.Protocol.Constants.{ProtoTag, abridged, intermediate, secure, from_bytes}
use v3mtp.Protocol.Obfuscation.{Primitives}
use v3mtp.Crypto.Ctr.{apply_keystream}
use v3mtp.Stream.Io.{IoError, AsyncRead, AsyncWrite}
use v3mtp.Stream.CryptoStream.Reader
use v3mtp.Stream.CryptoStream.Reader.{CryptoReader}
use v3mtp.Stream.CryptoStream.Writer
use v3mtp.Stream.CryptoStream.Writer.{CryptoWriter}
use v3mtp.Stats.Replay.{Lru, ReplayChecker, check_and_add_internal}

pub data HandshakeResult (T R W : Type 0) : Type 0 where
  success : T → HandshakeResult T R W
  bad_client : R → W → HandshakeResult T R W
  io_error : IoError → HandshakeResult T R W

pub record ProxyModes : Type 0 where
  pub classic : Bool
  pub secure_mode : Bool
  pub tls : Bool

-- The entries of the configuration that the handshake reads. A user has a secret in hexadecimal.
pub record HandshakeConfig : Type 0 where
  pub users : List (String × String)
  pub modes : ProxyModes
  pub crypto_pending_buffer : ℕ
  pub ignore_time_skew : Bool
  pub alpn_enforce : Bool
  pub fake_cert_len : ℕ
  pub tls_new_session_tickets : ℕ

pub record HandshakeSuccess : Type 0 where
  pub user : String
  pub dc_idx : ℕ
  pub proto_tag : ProtoTag
  pub dec_key : List ℕ
  pub dec_iv : ℕ
  pub enc_key : List ℕ
  pub enc_iv : ℕ
  pub peer : SocketAddr
  pub is_tls : Bool

unfoldable pub mode_ok : ProxyModes → Bool → ProtoTag → Bool
mode_ok modes is_tls secure =
    if is_tls then modes.tls || modes.secure_mode else modes.secure_mode || modes.tls
mode_ok modes is_tls intermediate = modes.classic
mode_ok modes is_tls abridged = modes.classic

module _ (prims : Primitives) (hex_decode : String → Option (List ℕ)) where
  open prims use {sha256, keystream}

  -- What the handshake is for a secret, `none` where the loop continues.
  unfoldable pub try_decoded :
      ProxyModes → Bool → SocketAddr → List ℕ → String → List ℕ → Option HandshakeSuccess
  try_decoded modes is_tls peer handshake user secret =
      let dec_prekey_iv = take 48 (drop 8 handshake) in
      let enc_prekey_iv = reverse dec_prekey_iv in
      let dec_key = sha256 (take 32 dec_prekey_iv ++ secret) in
      let dec_iv = from_be_bytes (drop 32 dec_prekey_iv) in
      let decrypted = apply_keystream (keystream dec_key dec_iv) 0 handshake in
      elim (from_bytes (take 4 (drop 56 decrypted))) [
        | none ↦ none
        | some tag ↦
            if mode_ok modes is_tls tag
            then some (record {
              user = user;
              dc_idx = from_le_bytes (take 2 (drop 60 decrypted));
              proto_tag = tag;
              dec_key = dec_key;
              dec_iv = dec_iv;
              enc_key = sha256 (take 32 enc_prekey_iv ++ secret);
              enc_iv = from_be_bytes (drop 32 enc_prekey_iv);
              peer = peer;
              is_tls = is_tls;
            })
            else none
      ]

  -- A user whose secret is not in hexadecimal is passed over.
  unfoldable pub try_user :
      ProxyModes → Bool → SocketAddr → List ℕ → String × String → Option HandshakeSuccess
  try_user modes is_tls peer handshake (user, secret_hex) = elim (hex_decode secret_hex) [
    | none ↦ none
    | some secret ↦ try_decoded modes is_tls peer handshake user secret
  ]

  -- The loop over the users.
  unfoldable pub find_success :
      ProxyModes → Bool → SocketAddr → List ℕ → List (String × String) → Option HandshakeSuccess
  find_success modes is_tls peer handshake [] = none
  find_success modes is_tls peer handshake (entry ∷ users) =
      let rest = find_success modes is_tls peer handshake users in
      elim (try_user modes is_tls peer handshake entry) [ none ↦ rest | some s ↦ some s ]

  module _ (lru : Lru) (hash : List ℕ → ℕ) (io : AsyncRead) (out : AsyncWrite) where
    -- The reader goes on in the keystream behind the handshake, which it decrypted; the writer is at
    -- the start of its own.
    abbrev pub mtproto_result :
        HandshakeConfig
        → List ℕ
        → io.Input
        → out.Output
        → Bool
        → Option HandshakeSuccess
        → HandshakeResult
            ((CryptoReader io × CryptoWriter out) × HandshakeSuccess)
            io.Input
            out.Output
    mtproto_result config handshake reader writer true found = bad_client reader writer
    mtproto_result config handshake reader writer false none = bad_client reader writer
    mtproto_result config handshake reader writer false (some s) = success (
      (
        Reader.new io reader (length handshake),
        Writer.new out writer 0 config.crypto_pending_buffer,
      ),
      s,
    )

    unfoldable pub handle_mtproto_handshake :
        ℕ
        → List ℕ
        → io.Input
        → out.Output
        → SocketAddr
        → HandshakeConfig
        → ReplayChecker lru
        → Bool
        → HandshakeResult
            ((CryptoReader io × CryptoWriter out) × HandshakeSuccess)
            io.Input
            out.Output
          × ReplayChecker lru
    handle_mtproto_handshake now handshake reader writer peer config checker is_tls =
        let (replayed, checker') =
          check_and_add_internal lru hash (take 48 (drop 8 handshake)) now checker in
        (
          mtproto_result config handshake reader writer replayed
              (find_success config.modes is_tls peer handshake config.users),
          checker',
        )
