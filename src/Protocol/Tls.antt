-- ===== src/Protocol/Tls.antt =====
-- src/protocol/tls.rs: the check of a ClientHello against the secrets of the users, and the
-- recognition of a TLS record. HMAC-SHA-256 is an argument, and so is the time in seconds.
pub mod Sealed
pub mod Accepts
pub mod ServerHello
pub mod ClientHello
pub mod Offered
pub mod Written
pub mod Named
mod Examples
use Prim.Native.String.{String}
use v3mtp.Prelude.{
  ℕ, ◌+◌, ◌*◌, Bool, true, false, ◌&&◌, ◌||◌, not, List, [], ◌∷◌, ◌++◌, Option, none, some, length,
  take, drop, replicate, byte_at, from_le_bytes, ltb, leb, ◌==◌, ◌=?◌, bytes_eq, if◌then◌else◌,
}
use v3mtp.Crypto.Aes.{xor_blocks}

abbrev pub tls_digest_len : ℕ
tls_digest_len = 32

abbrev pub tls_digest_pos : ℕ
tls_digest_pos = 11

-- The bounds of the time difference, from -20 minutes to 10 minutes.
abbrev pub time_skew_early : ℕ
time_skew_early = 20 * 60

abbrev pub time_skew_late : ℕ
time_skew_late = 10 * 60

pub record TlsValidation : Type 0 where
  pub user : String
  pub session_id : List ℕ
  pub digest : List ℕ
  pub timestamp : ℕ

abbrev pub all_zero : List ℕ → Bool
all_zero [] = true
all_zero (b ∷ bs) = (b == 0) && all_zero bs

abbrev pub timestamp_of : List ℕ → ℕ
timestamp_of xored = from_le_bytes (take 4 (drop 28 xored))

-- A time since the client was started, not since 1970.
abbrev pub is_boot_time : ℕ → Bool
is_boot_time timestamp = ltb timestamp (60 * 60 * 24 * 1000)

abbrev pub in_skew : ℕ → ℕ → Bool
in_skew now timestamp =
    leb timestamp (now + time_skew_early) && leb now (timestamp + time_skew_late)

-- Whether the loop stops at a secret.
unfoldable pub passes : ℕ → Bool → List ℕ → Bool
passes now ignore_time_skew xored =
    let timestamp = timestamp_of xored in
    if not (all_zero (take 28 xored))
    then false
    else if not ignore_time_skew && (not (is_boot_time timestamp) && not (in_skew now timestamp))
    then false
    else true

-- The message with the digest set to zero.
abbrev pub blank : List ℕ → List ℕ
blank handshake =
    take tls_digest_pos handshake
    ++ (replicate tls_digest_len 0 ++ drop (tls_digest_pos + tls_digest_len) handshake)

module _ (sha256_hmac : List ℕ → List ℕ → List ℕ) where
  -- The loop over the secrets.
  unfoldable pub find_user :
      ℕ → Bool → List ℕ → List ℕ → List ℕ → List (String × List ℕ) → Option TlsValidation
  find_user now ignore_time_skew digest session_id msg [] = none
  find_user now ignore_time_skew digest session_id msg ((user, secret) ∷ secrets) =
      let xored = xor_blocks digest (sha256_hmac secret msg) in
      elim (passes now ignore_time_skew xored) [
        | true ↦ some (record {
          user = user;
          session_id = session_id;
          digest = digest;
          timestamp = timestamp_of xored;
        })
        | false ↦ find_user now ignore_time_skew digest session_id msg secrets
      ]

  unfoldable pub validate_tls_handshake :
      ℕ → List ℕ → List (String × List ℕ) → Bool → Option TlsValidation
  validate_tls_handshake now handshake secrets ignore_time_skew =
      let session_id_len = byte_at handshake 43 in
      if ltb (length handshake) (tls_digest_pos + tls_digest_len + 1)
      then none
      else if ltb (length handshake) (44 + session_id_len)
      then none
      else find_user now ignore_time_skew (take tls_digest_len (drop tls_digest_pos handshake))
          (take session_id_len (drop 44 handshake)) (blank handshake) secrets
