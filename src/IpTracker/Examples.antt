-- ===== src/IpTracker/Examples.antt =====
-- Runs of the tracker, and the theorems at concrete inputs.
use Prim.Native.String.{String}
use v3mtp.Prelude.{◌≡◌, refl, false, List, [], ◌∷◌, none, some, string_eq}
use v3mtp.Prelude.Maps
use v3mtp.Network.Addr.{IpAddr, v4, ip_eq}
use v3mtp.IpTracker.{
  UserIpTracker, new, set_user_limit, check_and_add, remove_ip, is_ip_active, get_active_ip_count,
}
use v3mtp.IpTracker.Outcomes.{Outcome, check_and_add-Outcome}
use v3mtp.IpTracker.Limits.{Call, adds, removes, Within, run, run-Within, new-Within}

abbrev alice : String
alice = "alice"

abbrev bob : String
bob = "bob"

abbrev home : IpAddr
home = v4 0x0a000001

abbrev office : IpAddr
office = v4 0x0a000002

limited_alice : UserIpTracker
unfolding check_and_add set_user_limit new
limited_alice = (check_and_add alice home (set_user_limit alice 1 new)).1

second_refused : is_ip_active alice office (check_and_add alice office limited_alice).1 ≡ false
unfolding limited_alice is_ip_active Maps.get Maps.insert Maps.put Maps.contains
second_refused = refl

freed : get_active_ip_count alice (remove_ip alice home limited_alice) ≡ 0
unfolding limited_alice remove_ip get_active_ip_count Maps.get Maps.insert Maps.put Maps.contains
    Maps.delete Maps.remove
freed = refl

check_and_add-Outcome_example : Outcome alice office limited_alice
check_and_add-Outcome_example = check_and_add-Outcome alice office limited_alice

abbrev history : List Call
history =
    adds (some 1) alice home
    ∷ adds none bob home
    ∷ adds (some 1) alice office
    ∷ removes bob home
    ∷ []

run-Within_example : Within alice 1 (run history new)
run-Within_example =
    run-Within history alice 1 new ((λ e. refl), ((λ e. cc), ((λ e. refl), (tt, tt))))
      (new-Within alice 1)
