-- ===== src/Proxy/Client/Examples.antt =====
-- The session theorems at concrete inputs.
use v3mtp.Prelude.{◌≡◌, refl, false, [], ◌∷◌, ok, err, string_eq, arith}
use v3mtp.Prelude.Maps
use v3mtp.Network.Addr.{IpAddr, v4, ip_eq}
use v3mtp.IpTracker.{
  UserIpTracker, ip_limit_reached, check_and_add, remove_ip, is_ip_active, get_active_ip_count,
  get_user_limit,
}
use v3mtp.Proxy.Client.{
  AccessConfig, UserStats, handle_authenticated, connection_limit_exceeded, is_expired,
  conns_exceeded,
}
use v3mtp.Proxy.Client.Sessions.{refused_fills_limit, second_session_forgotten}

abbrev home : IpAddr
home = v4 0x0a000001

abbrev office : IpAddr
office = v4 0x0a000002

-- One address for `alice`, none of them active.
abbrev idle : UserIpTracker
idle = record { active_ips = []; max_ips = ("alice", 1) ∷ [] }

abbrev busy : UserIpTracker
busy = record { active_ips = ("alice", home ∷ []) ∷ []; max_ips = ("alice", 1) ∷ [] }

-- Two connections at most, and two are there.
abbrev config : AccessConfig
config = record {
  user_expirations = [];
  user_max_tcp_conns = ("alice", 2) ∷ [];
  user_data_quota = [];
}

abbrev stats : UserStats
stats = record { get_user_curr_connects = λ u. 2; get_user_total_octets = λ u. 0 }

office_ne_home : office ≡ home → ⊥
office_ne_home e = ground arith

refused_fills_limit_example :
    ((handle_authenticated config 5 stats "alice" home (λ t. (ok tt, t)) idle).0
      ≡ err (connection_limit_exceeded "alice"))
    × ((check_and_add "alice" office
          (handle_authenticated config 5 stats "alice" home (λ t. (ok tt, t)) idle).1).0
        ≡ err (ip_limit_reached "alice" 1 1))
unfolding is_expired conns_exceeded get_user_limit get_active_ip_count is_ip_active Maps.get
refused_fills_limit_example =
    refused_fills_limit config 5 stats "alice" home (λ t. (ok tt, t)) idle 1 office refl refl refl
      refl refl refl (λ e. absurd (office_ne_home e))

second_session_forgotten_example :
    ((check_and_add "alice" home busy).0 ≡ ok tt)
    × ((check_and_add "alice" office busy).0 ≡ err (ip_limit_reached "alice" 1 1))
    × (is_ip_active "alice" home (remove_ip "alice" home (check_and_add "alice" home busy).1)
        ≡ false)
    × ((check_and_add "alice" office (remove_ip "alice" home (check_and_add "alice" home busy).1)).0
        ≡ ok tt)
unfolding get_user_limit get_active_ip_count is_ip_active Maps.get Maps.contains
second_session_forgotten_example =
    second_session_forgotten "alice" home office busy 1 refl (refl, tt) refl refl refl
