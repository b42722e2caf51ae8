-- ===== src/Proxy/Client/Sessions.antt =====
-- What the address limit is worth over sessions: which addresses stay behind, and which are
-- forgotten while in use.
use Prim.Native.String.{String}
use v3mtp.Prelude.{ℕ, ◌+◌, ◌≡◌, ◌≢◌, ◌∙◌, true, false, some, ok, err, arith, string_eq}
use v3mtp.Prelude.Maps
use v3mtp.Network.Addr.{IpAddr, ip_eq, same_ip_iff}
use v3mtp.IpTracker.{
  UserIpTracker, ip_limit_reached, user_ips, check_and_add, remove_ip, get_user_limit, is_ip_active,
  get_active_ip_count,
}
use v3mtp.IpTracker.Laws.{is_ip_active-check_and_add, is_ip_active-remove_ip}
use v3mtp.IpTracker.Laws.{active-user_ips, count-user_ips, user_ips-remove_ip}
use v3mtp.IpTracker.Decisions.{
  check_active, check_full, check_room, get_user_limit-check_and_add, get_user_limit-remove_ip,
}
use v3mtp.Proxy.Client.{
  Relay, AccessConfig, UserStats, is_expired, conns_exceeded, handle_authenticated,
  connection_limit_exceeded,
}

active_after_ok :
    (user : String) (ip : IpAddr) (t : UserIpTracker)
    → (check_and_add user ip t).0 ≡ ok tt
    → is_ip_active user ip (check_and_add user ip t).1 ≡ true
active_after_ok user ip t added = ground (
  arith,
  is_ip_active-check_and_add user user ip ip t,
  string_eq.beq_iff user user,
  same_ip_iff ip ip,
)

-- A connection that the address check passed and the connection limit refused has ended, and its
-- address stays active.
pub refused_stays_active :
    (config : AccessConfig) (now : ℕ) (stats : UserStats) (user : String) (ip : IpAddr)
    (relay : Relay) (t : UserIpTracker)
    → is_expired config now user ≡ false
    → conns_exceeded config stats user ≡ true
    → (check_and_add user ip t).0 ≡ ok tt
    → let r = handle_authenticated config now stats user ip relay t in
      (r.0 ≡ err (connection_limit_exceeded user)) × (is_ip_active user ip r.1 ≡ true)
unfolding handle_authenticated
refused_stays_active config now stats user ip relay t live full added =
    ground (arith, active_after_ok user ip t added)

-- With one place left under the limit, one refused connection from a new address fills it: with
-- no session open from there, every further new address of the user is turned away.
pub refused_fills_limit :
    (config : AccessConfig) (now : ℕ) (stats : UserStats) (user : String) (ip : IpAddr)
    (relay : Relay) (t : UserIpTracker) (limit : ℕ) (later : IpAddr)
    → is_expired config now user ≡ false
    → conns_exceeded config stats user ≡ true
    → get_user_limit user t ≡ some limit
    → get_active_ip_count user t + 1 ≡ limit
    → is_ip_active user ip t ≡ false
    → is_ip_active user later t ≡ false
    → later ≢ ip
    → let r = handle_authenticated config now stats user ip relay t in
      (r.0 ≡ err (connection_limit_exceeded user))
      × ((check_and_add user later r.1).0 ≡ err (ip_limit_reached user limit limit))
unfolding handle_authenticated
refused_fills_limit config now stats user ip relay t limit later live full has room fresh new_ip
      other =
    let u = (check_and_add user ip t).1 in
    ground (
      arith,
      check_room user ip t limit has,
      check_full user later u limit (get_user_limit-check_and_add user user ip t ∙ has),
      is_ip_active-check_and_add user user later ip t,
      string_eq.beq_iff user user,
      same_ip_iff ip later,
    )

-- A user at the limit opens a second session from an active address, and ends one of the two:
-- the address is then inactive, and the place is free for another address while the other session
-- still runs.
pub second_session_forgotten :
    (user : String) (ip other : IpAddr) (t : UserIpTracker) (limit : ℕ)
    → get_user_limit user t ≡ some limit
    → Maps.Distinct (user_ips t user)
    → get_active_ip_count user t ≡ limit
    → is_ip_active user ip t ≡ true
    → is_ip_active user other t ≡ false
    → let second = check_and_add user ip t in
      let ended = remove_ip user ip second.1 in
      (second.0 ≡ ok tt)
      × ((check_and_add user other t).0 ≡ err (ip_limit_reached user limit limit))
      × (is_ip_active user ip ended ≡ false)
      × ((check_and_add user other ended).0 ≡ ok tt)
second_session_forgotten user ip other t limit has distinct full held new_ip =
    let second = (check_and_add user ip t).1 in
    let ended = remove_ip user ip second in
    let has' : get_user_limit user ended ≡ some limit =
      get_user_limit-remove_ip user user ip second
      ∙ get_user_limit-check_and_add user user ip t
      ∙ has in
    ground (
      arith,
      check_active user ip t limit has held,
      check_full user other t limit has new_ip,
      check_room user other ended limit has',
      is_ip_active-remove_ip user user ip ip second,
      is_ip_active-remove_ip user user other ip second,
      is_ip_active-check_and_add user user other ip t,
      user_ips-remove_ip user user ip second,
      Maps.length-delete_present ip (user_ips t user) distinct,
      active-user_ips user ip t,
      count-user_ips user t,
      count-user_ips user ended,
      string_eq.beq_iff user user,
      same_ip_iff ip ip,
      same_ip_iff ip other,
    )
