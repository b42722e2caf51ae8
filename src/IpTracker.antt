-- ===== src/IpTracker.antt =====
-- src/ip_tracker.rs: the active addresses of each user, against a limit for each user. A method
-- that takes the write lock returns the tracker after it.
pub mod Laws
pub mod Outcomes
pub mod Decisions
pub mod Limits
mod Examples
use Prim.Native.String.{String}
use v3mtp.Prelude.{
  ℕ, Bool, true, false, List, [], ◌∷◌, Option, none, some, Result, ok, err, length, ltb, leb,
  string_eq, ◌=?◌, if◌then◌else◌,
}
use v3mtp.Prelude.Maps
use v3mtp.Network.Addr.{IpAddr, ip_eq}

pub record UserIpTracker : Type 0 where
  pub active_ips : List (String × List IpAddr)
  pub max_ips : List (String × ℕ)

pub data LimitError : Type 0 where
  ip_limit_reached : String → ℕ → ℕ → LimitError

unfoldable pub new : UserIpTracker
new = record { active_ips = []; max_ips = [] }

unfoldable pub set_user_limit : String → ℕ → UserIpTracker → UserIpTracker
set_user_limit username limit t = record t { max_ips = Maps.insert username limit t.max_ips }

-- The entries of the configuration are inserted in its order of iteration.
unfoldable pub load_limits : List (String × ℕ) → UserIpTracker → UserIpTracker
load_limits [] t = t
load_limits ((user, limit) ∷ limits) t = load_limits limits (set_user_limit user limit t)

-- The set behind `entry(username).or_insert_with(HashSet::new)`.
abbrev pub user_ips : UserIpTracker → String → List IpAddr
user_ips t username = elim (Maps.get username t.active_ips) [ none ↦ [] | some ips ↦ ips ]

abbrev pub store_ips : String → List IpAddr → UserIpTracker → UserIpTracker
store_ips username ips t = record t { active_ips = Maps.insert username ips t.active_ips }

-- `check_and_add` from the write lock on: the limit was read before, under the other lock, so
-- other calls may have come between. The entry is made even where the call then refuses.
unfoldable pub add_under :
    Option ℕ → String → IpAddr → UserIpTracker → Result LimitError (Unit {0}) × UserIpTracker
add_under none username ip t = (ok tt, store_ips username (Maps.put ip (user_ips t username)) t)
add_under (some limit) username ip t =
    let ips = user_ips t username in
    if Maps.contains ip ips
    then (ok tt, store_ips username ips t)
    else if leb limit (length ips)
    then (err (ip_limit_reached username (length ips) limit), store_ips username ips t)
    else (ok tt, store_ips username (Maps.put ip ips) t)

unfoldable pub get_user_limit : String → UserIpTracker → Option ℕ
get_user_limit username t = Maps.get username t.max_ips

-- With no call between the two locks.
unfoldable pub check_and_add :
    String → IpAddr → UserIpTracker → Result LimitError (Unit {0}) × UserIpTracker
unfolding add_under get_user_limit
check_and_add username ip t = add_under (get_user_limit username t) username ip t

-- What `remove_ip` leaves of the map, from the set that it found.
abbrev pub drop_ip : String → IpAddr → List IpAddr → UserIpTracker → UserIpTracker
drop_ip username ip ips t = elim (Maps.delete ip ips) [
  | [] ↦ record t { active_ips = Maps.remove username t.active_ips }
  | x ∷ left ↦ store_ips username (x ∷ left) t
]

unfoldable pub remove_ip : String → IpAddr → UserIpTracker → UserIpTracker
remove_ip username ip t = elim (Maps.get username t.active_ips) [
  | none ↦ t
  | some ips ↦ drop_ip username ip ips t
]

unfoldable pub clear_user_ips : String → UserIpTracker → UserIpTracker
clear_user_ips username t = record t { active_ips = Maps.remove username t.active_ips }

unfoldable pub clear_all : UserIpTracker → UserIpTracker
clear_all t = record t { active_ips = [] }

unfoldable pub get_active_ip_count : String → UserIpTracker → ℕ
get_active_ip_count username t = elim (Maps.get username t.active_ips) [
  | none ↦ 0
  | some ips ↦ length ips
]

unfoldable pub get_active_ips : String → UserIpTracker → List IpAddr
get_active_ips username t = user_ips t username

unfoldable pub is_ip_active : String → IpAddr → UserIpTracker → Bool
is_ip_active username ip t = elim (Maps.get username t.active_ips) [
  | none ↦ false
  | some ips ↦ Maps.contains ip ips
]
