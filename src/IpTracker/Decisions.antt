-- ===== src/IpTracker/Decisions.antt =====
-- `check_and_add` for a user with a limit: each outcome from its condition.
use Prim.Native.String.{String}
use v3mtp.Prelude.{
  ℕ, Option, List, [], ◌∷◌, ◌+◌, ◌≤◌, ◌<◌, ◌≡◌, refl, true, false, none, some, ok, err, arith,
  string_eq, Option-cases, inl, inr,
}
use v3mtp.Prelude.Maps
use v3mtp.Network.Addr.{IpAddr, ip_eq}
use v3mtp.IpTracker.{
  UserIpTracker, ip_limit_reached, user_ips, add_under, check_and_add, remove_ip, drop_ip,
  get_user_limit, is_ip_active, get_active_ip_count,
}
use v3mtp.IpTracker.Laws.{limited, check-eq-add, active-user_ips, count-user_ips}

module _ (u : String) (ip : IpAddr) (t : UserIpTracker) (limit : ℕ)
    (has : get_user_limit u t ≡ some limit) where
  add_as : check_and_add u ip t ≡ add_under (some limit) u ip t
  add_as = rw (check-eq-add u ip t, has)

  pub check_active :
      is_ip_active u ip t ≡ true
      → ((check_and_add u ip t).0 ≡ ok tt) × (user_ips (check_and_add u ip t).1 u ≡ user_ips t u)
  check_active here = rw add_as (ground (arith, limited limit u ip t, active-user_ips u ip t))

  pub check_full :
      is_ip_active u ip t ≡ false
      → limit ≤ get_active_ip_count u t
      → (check_and_add u ip t).0 ≡ err (ip_limit_reached u (get_active_ip_count u t) limit)
  check_full fresh full =
      rw add_as (ground (arith, limited limit u ip t, active-user_ips u ip t, count-user_ips u t))

  pub check_room :
      is_ip_active u ip t ≡ false
      → get_active_ip_count u t < limit
      → ((check_and_add u ip t).0 ≡ ok tt)
        × (get_active_ip_count u (check_and_add u ip t).1 ≡ get_active_ip_count u t + 1)
  check_room fresh room = rw add_as (
      ground (
        arith,
        limited limit u ip t,
        active-user_ips u ip t,
        count-user_ips u t,
        count-user_ips u (add_under (some limit) u ip t).1,
        Maps.length-put_new ip (user_ips t u),
      ))

pub get_user_limit-check_and_add :
    (v u : String) (ip : IpAddr) (t : UserIpTracker)
    → get_user_limit v (check_and_add u ip t).1 ≡ get_user_limit v t
unfolding get_user_limit check_and_add
get_user_limit-check_and_add v u ip t = by_limit (get_user_limit u t)
  where
    by_limit : (limit : Option ℕ) → get_user_limit v (add_under limit u ip t).1 ≡ get_user_limit v t
    by_limit none = refl
    by_limit (some limit) = ground arith

pub get_user_limit-remove_ip :
    (v u : String) (ip : IpAddr) (t : UserIpTracker)
    → get_user_limit v (remove_ip u ip t) ≡ get_user_limit v t
unfolding get_user_limit remove_ip
get_user_limit-remove_ip v u ip t = elim (Option-cases (Maps.get u t.active_ips)) [
  | inl missing ↦ rw (missing, remove_ip)
  | inr (ips, found) ↦ rw (found, remove_ip) (from_set (Maps.delete ip ips) ips refl)
]
  where
    from_set :
        (left ips : List IpAddr)
        → Maps.delete ip ips ≡ left
        → get_user_limit v (drop_ip u ip ips t) ≡ get_user_limit v t
    from_set [] ips e = rw (e, drop_ip)
    from_set (x ∷ left) ips e = rw (e, drop_ip)
