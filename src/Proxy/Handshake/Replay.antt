-- ===== src/Proxy/Handshake/Replay.antt =====
-- The handshakes against the history of the replay checker.
use v3mtp.Prelude.{
  Result, ltb, Bool-cases, inl, inr, bytes_eq, =?_refl, ◌∷◌, ℕ, ◌^◌, ◌≤◌, ◌<◌, ◌≡◌, refl, ap, ◌∙◌,
  arith, Bool, true, false, List, Option, length, take, drop, leb,
}
use Prim.Native.String.{String}
use mathlib.Core.Path.{subst}
use v3mtp.Network.Addr.{SocketAddr}
use v3mtp.Protocol.Obfuscation.{Primitives}
use v3mtp.Crypto.Random.{Source, SecureRandom}
use v3mtp.Protocol.Tls.{tls_digest_pos}
use v3mtp.Proxy.Handshake.Tls.{tls_digest_half_len, Emulation, handle_tls_handshake}
use v3mtp.Stream.Io.{IoError, AsyncRead, AsyncWrite}
use v3mtp.Stats.Replay.{Lru, ReplayChecker, check_and_add_internal}
use v3mtp.Stats.Replay.Sound.{Log, seen_since, horizon}
use v3mtp.Stats.Replay.Sound.Calls.{log_after}
use v3mtp.Stats.Replay.Checker.{Reach, checks}
use v3mtp.Stats.Replay.Later.{Later, Later-Reach, Later-seen}
use v3mtp.Stats.Replay.Exact.{shard_capacity, check_and_add_exact}
use v3mtp.Proxy.Handshake.{
  HandshakeResult, success, bad_client, HandshakeConfig, HandshakeSuccess, find_success,
  mtproto_result, handle_mtproto_handshake,
}

abbrev pub IsSuccess : {T R W : Type 0} → HandshakeResult T R W → Type 0
IsSuccess (success s) = Unit
IsSuccess _ = ⊥

-- The 48 bytes of an opening that the checker is asked for.
abbrev pub prekey_iv : List ℕ → List ℕ
prekey_iv handshake = take 48 (drop 8 handshake)

module _ (prims : Primitives) (hex_decode : String → Option (List ℕ)) (lru : Lru)
    (hash : List ℕ → ℕ) (io : AsyncRead) (out : AsyncWrite) where
  -- The answer of the checker, where the opening was accepted.
  not_replayed :
      (config : HandshakeConfig) (handshake : List ℕ) (reader : io.Input) (writer : out.Output)
      (seen : Bool) (found : Option HandshakeSuccess)
      → IsSuccess (
          mtproto_result prims hex_decode lru hash io out config handshake reader writer seen found)
      → seen ≡ false
  not_replayed config handshake reader writer true found h = absurd h
  not_replayed config handshake reader writer false found h = refl

module _ (prims : Primitives) (hex_decode : String → Option (List ℕ)) (lru : Lru)
    (hash : List ℕ → ℕ) (io : AsyncRead) (out : AsyncWrite) {total window start : ℕ}
    (word : shard_capacity lru hash total < 2 ^ 64) (old : window ≤ start) where
  -- While fewer keys were added than one shard holds, the outcome of an opening is a function of the
  -- additions: bytes that were added since the horizon are refused, and otherwise the users' secrets
  -- decide.
  pub handle_mtproto_handshake-exact :
      {r : ReplayChecker lru} {log : Log} {t : ℕ} (now : ℕ) (handshake : List ℕ) (reader : io.Input)
      (writer : out.Output) (peer : SocketAddr) (config : HandshakeConfig) (is_tls : Bool)
      → Reach lru hash total window start r log t
      → length log < shard_capacity lru hash total
      → t ≤ now
      → (handle_mtproto_handshake prims hex_decode lru hash io out now handshake reader writer peer
          config r is_tls).0
        ≡ mtproto_result prims hex_decode lru hash io out config handshake reader writer
            (seen_since (prekey_iv handshake) (horizon now window) log)
            (find_success prims hex_decode config.modes is_tls peer handshake config.users)
  unfolding handle_mtproto_handshake
  handle_mtproto_handshake-exact {r} {log} {t} now handshake reader writer peer config is_tls path
        few late =
      ap
        (λ seen.
          mtproto_result prims hex_decode lru hash io out config handshake reader writer seen
            (find_success prims hex_decode config.modes is_tls peer handshake config.users))
        (check_and_add_exact lru hash word old (prekey_iv handshake) now path few late)

  -- In a checker made at a time `start` that is no earlier than the window, whose shards hold fewer than
  -- 2 ^ 64 keys each, after any history of calls: where an opening was accepted, and any calls followed,
  -- another opening with the same 48 bytes is refused, whatever else it holds, as long as the window of
  -- the first has not passed, and fewer keys were added in all than one shard holds.
  pub accepted_once :
      {r r' : ReplayChecker lru} {log log' : Log} {t t' : ℕ} (now later : ℕ) (first second : List ℕ)
      (reader reader' : io.Input) (writer writer' : out.Output) (peer peer' : SocketAddr)
      (config config' : HandshakeConfig) (is_tls is_tls' : Bool)
      → Reach lru hash total window start r log t
      → t ≤ now
      → (let one =
            handle_mtproto_handshake prims hex_decode lru hash io out now first reader writer peer
              config r is_tls in
          IsSuccess one.0
          → Later lru hash one.1 ((prekey_iv first, now) ∷ log) now r' log' t'
          → length log' < shard_capacity lru hash total
          → prekey_iv second ≡ prekey_iv first
          → t' ≤ later
          → horizon later window ≤ now
          → (handle_mtproto_handshake prims hex_decode lru hash io out later second reader' writer'
              peer' config' r' is_tls').0
            ≡ bad_client reader' writer')
  unfolding handle_mtproto_handshake
  accepted_once {r} {r'} {log} {log'} {t} {t'} now later first second reader reader' writer writer'
        peer peer' config config' is_tls is_tls' path late accepted between few same after inside =
      let key = prekey_iv first in
      let answer = check_and_add_internal lru hash key now r in
      let missing : answer.0 ≡ false =
        not_replayed prims hex_decode lru hash io out config first reader writer answer.0
          (find_success prims hex_decode config.modes is_tls peer first config.users) accepted in
      let path' : Reach lru hash total window start answer.1 ((key, now) ∷ log) now =
        subst (λ b. Reach lru hash total window start answer.1 (log_after lru b key now log) now)
          missing (checks key now path late) in
      let in_time : leb (horizon later window) now ≡ true = ground (arith, inside) in
      let added : seen_since (prekey_iv second) (horizon later window) ((key, now) ∷ log) ≡ true =
        rw (same, =?_refl key, in_time) refl in
      handle_mtproto_handshake-exact later second reader' writer' peer' config' is_tls'
        (Later-Reach lru hash path' between) few after
      ∙ ap
          (λ b.
            mtproto_result prims hex_decode lru hash io out config' second reader' writer' b
              (find_success prims hex_decode config'.modes is_tls' peer' second config'.users))
          (Later-seen lru hash (prekey_iv second) (horizon later window) between added)

abbrev pub digest_half : List ℕ → List ℕ
digest_half handshake = take tls_digest_half_len (drop tls_digest_pos handshake)

-- The same for a ClientHello, with the first half of its digest.
module _ (sha256_hmac : List ℕ → List ℕ → List ℕ) (hex_decode : String → Option (List ℕ))
    (source : Source) (lru : Lru) (hash : List ℕ → ℕ) (io : AsyncRead) (out : AsyncWrite)
    (send : List ℕ → out.Output → Result IoError (Unit {0}) × out.Output) where
  -- In a checker made at a time `start` that is no earlier than the window, whose shards hold fewer than
  -- 2 ^ 64 keys each, and to which fewer keys were added than one shard holds: after any history of
  -- calls, a ClientHello with the first half of a digest that was added since the horizon is refused,
  -- whatever the secrets are, and nothing is drawn from the random source.
  pub handle_tls_handshake-replayed :
      {total window start : ℕ} (word : shard_capacity lru hash total < 2 ^ 64)
      (old : window ≤ start) {r : ReplayChecker lru} {log : Log} {t : ℕ} (clock now : ℕ)
      (handshake : List ℕ) (reader : io.Input) (writer : out.Output) (config : HandshakeConfig)
      (emulation : Option (Emulation sha256_hmac hex_decode source lru hash io out))
      (rng : SecureRandom source)
      → Reach lru hash total window start r log t
      → length log < shard_capacity lru hash total
      → t ≤ now
      → seen_since (digest_half handshake) (horizon now window) log ≡ true
      → (handle_tls_handshake sha256_hmac hex_decode source lru hash io out send clock now handshake
          reader writer config emulation r rng).0
        ≡ (bad_client reader writer, rng)
  unfolding handle_tls_handshake
  handle_tls_handshake-replayed word old clock now handshake reader writer config emulation rng path
        few late seen =
      let replayed =
        check_and_add_exact lru hash word old (digest_half handshake) now path few late ∙ seen in
      elim (Bool-cases (ltb (length handshake) 44)) [
        | inl short ↦ rw short refl
        | inr long ↦ rw (long, replayed) refl
      ]
