-- ===== src/Proxy/Client.antt =====
-- src/proxy/client.rs: the admission of an authenticated user, and the guard that frees the
-- user's address at the end of the session. The relay between the two is not modelled.
pub mod Sessions
mod Examples
use Prim.Native.String.{String}
use v3mtp.Prelude.{
  ℕ, ◌≡◌, Bool, true, false, ◌&&◌, List, Option, none, some, Result, ok, err, ltb, leb, string_eq,
  if◌then◌else◌,
}
use v3mtp.Prelude.Maps
use v3mtp.Network.Addr.{IpAddr}
use v3mtp.IpTracker.{UserIpTracker, LimitError, check_and_add, remove_ip}

-- The entries of `config.access` that the checks read. An expiration is an instant.
pub record AccessConfig : Type 0 where
  pub user_expirations : List (String × ℕ)
  pub user_max_tcp_conns : List (String × ℕ)
  pub user_data_quota : List (String × ℕ)

-- What `Stats` answers at the time of the call.
pub record UserStats : Type 0 where
  pub get_user_curr_connects : String → ℕ
  pub get_user_total_octets : String → ℕ

pub data ProxyError : Type 0 where
  user_expired connection_limit_exceeded data_quota_exceeded : String → ProxyError

-- Whether a user has an entry that `test` holds of.
abbrev entry_holds : String → List (String × ℕ) → (ℕ → Bool) → Bool
entry_holds user entries test = elim (Maps.get user entries) [ none ↦ false | some v ↦ test v ]

unfoldable pub is_expired : AccessConfig → ℕ → String → Bool
is_expired config now user = entry_holds user config.user_expirations (λ at. ltb at now)

unfoldable pub conns_exceeded : AccessConfig → UserStats → String → Bool
conns_exceeded config stats user =
    entry_holds user config.user_max_tcp_conns
      (λ limit. leb limit (stats.get_user_curr_connects user))

unfoldable pub quota_exceeded : AccessConfig → UserStats → String → Bool
quota_exceeded config stats user =
    entry_holds user config.user_data_quota (λ quota. leb quota (stats.get_user_total_octets user))

-- The checks behind the address check, which leave the tracker alone.
abbrev after_ip_check : AccessConfig → UserStats → String → Result ProxyError (Unit {0})
after_ip_check config stats user =
    if conns_exceeded config stats user
    then err (connection_limit_exceeded user)
    else if quota_exceeded config stats user
    then err (data_quota_exceeded user)
    else ok tt

abbrev ip_checked :
    AccessConfig → UserStats → String → Result LimitError (Unit {0}) → Result ProxyError (Unit {0})
ip_checked config stats user (ok done) = after_ip_check config stats user
ip_checked config stats user (err reason) = err (connection_limit_exceeded user)

unfoldable pub check_user_limits :
    AccessConfig
    → ℕ
    → UserStats
    → String
    → IpAddr
    → UserIpTracker
    → Result ProxyError (Unit {0}) × UserIpTracker
check_user_limits config now stats user ip t =
    let r = check_and_add user ip t in
    if is_expired config now user
    then (err (user_expired user), t)
    else (ip_checked config stats user r.0, r.1)

-- The relay of a session: its result, and the tracker after all that others did meanwhile.
abbrev pub Relay : Type 0
Relay = UserIpTracker → Result ProxyError (Unit {0}) × UserIpTracker

-- `handle_authenticated`, from its call to the end of the task that its guard spawns: the guard exists only once the checks have
-- passed, so an early return frees nothing.
unfoldable pub handle_authenticated :
    AccessConfig
    → ℕ
    → UserStats
    → String
    → IpAddr
    → Relay
    → UserIpTracker
    → Result ProxyError (Unit {0}) × UserIpTracker
unfolding check_user_limits
handle_authenticated config now stats user ip relay t =
    let r = check_user_limits config now stats user ip t in
    elim r.0 [
      | err e ↦ (err e, r.1)
      | ok done ↦ let end = relay r.1 in (end.0, remove_ip user ip end.1)
    ]
