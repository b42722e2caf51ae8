-- ===== src/IpTracker/Laws.antt =====
-- What each operation does to the set of active addresses, seen through `is_ip_active`.
use Prim.Native.String.{String}
use v3mtp.Prelude.{
  ℕ, ◌≤◌, ◌<◌, ◌≡◌, ◌⊎◌, refl, true, false, ◌&&◌, ◌||◌, List, [], ◌∷◌, Option, none, some, ok, err,
  arith, length, Option-cases, inl, inr, ◌=?◌, string_eq, if◌then◌else◌,
}
use v3mtp.Prelude.Maps
use v3mtp.Network.Addr.{IpAddr, ip_eq}
use v3mtp.IpTracker.{
  UserIpTracker, ip_limit_reached, user_ips, drop_ip, store_ips, add_under, check_and_add,
  remove_ip, clear_user_ips, get_active_ip_count, is_ip_active, get_user_limit,
}

pub active-user_ips :
    (u : String) (ip : IpAddr) (t : UserIpTracker)
    → is_ip_active u ip t ≡ Maps.contains ip (user_ips t u)
unfolding is_ip_active Maps.contains
active-user_ips u ip t = ground arith

user_ips-store_ips :
    (v u : String) (ips : List IpAddr) (t : UserIpTracker)
    → user_ips (store_ips u ips t) v ≡ (if u =? v then ips else user_ips t v)
user_ips-store_ips v u ips t = ground (arith, Maps.get-insert v u ips t.active_ips)

pub user_ips-remove_ip :
    (v u : String) (ip : IpAddr) (t : UserIpTracker)
    → user_ips (remove_ip u ip t) v
      ≡ (if u =? v then Maps.delete ip (user_ips t u) else user_ips t v)
unfolding remove_ip Maps.delete
user_ips-remove_ip v u ip t = elim (Option-cases (Maps.get u t.active_ips)) [
  | inl missing ↦ rw (missing, remove_ip) (ground (arith, missing, string_eq.beq_iff u v))
  | inr (ips, found) ↦ rw (found, remove_ip) (from_set ips found (Maps.delete ip ips) refl)
]
  where
    from_set :
        (ips : List IpAddr)
        → Maps.get u t.active_ips ≡ some ips
        → (left : List IpAddr) → Maps.delete ip ips ≡ left
        → user_ips (drop_ip u ip ips t) v
          ≡ (if u =? v then Maps.delete ip (user_ips t u) else user_ips t v)
    from_set ips found [] e =
        ground (arith, found, e, Maps.get-remove v u t.active_ips, string_eq.beq_iff u v)
    from_set ips found (x ∷ left) e =
        ground (arith, found, e, Maps.get-insert v u (x ∷ left) t.active_ips, string_eq.beq_iff u v)

-- After a call that returned `ok`, exactly the address of the call has joined the set.
pub user_ips-add_under :
    (limit : Option ℕ) (v u : String) (ip : IpAddr) (t : UserIpTracker)
    → user_ips (add_under limit u ip t).1 v ≡ (
        if u =? v
        then elim (add_under limit u ip t).0 [
          | ok done ↦ Maps.put ip (user_ips t u)
          | err e ↦ user_ips t u
        ]
        else user_ips t v)
unfolding add_under Maps.put
user_ips-add_under none v u ip t =
    ground (arith, user_ips-store_ips v u (Maps.put ip (user_ips t u)) t)
user_ips-add_under (some limit) v u ip t = ground (
  arith,
  user_ips-store_ips v u (user_ips t u) t,
  user_ips-store_ips v u (Maps.put ip (user_ips t u)) t,
  string_eq.beq_iff u v,
)

pub user_ips-clear :
    (v u : String) (t : UserIpTracker)
    → user_ips (clear_user_ips u t) v ≡ (if u =? v then [] else user_ips t v)
unfolding clear_user_ips
user_ips-clear v u t = ground (arith, Maps.get-remove v u t.active_ips)

pub count-user_ips :
    (u : String) (t : UserIpTracker) → get_active_ip_count u t ≡ length (user_ips t u)
unfolding get_active_ip_count
count-user_ips u t = ground arith

pub limited :
    (limit : ℕ) (u : String) (ip : IpAddr) (t : UserIpTracker)
    → let r = add_under (some limit) u ip t in
      let ips = user_ips t u in
      ((Maps.contains ip ips ≡ true) × (r.0 ≡ ok tt) × (user_ips r.1 u ≡ ips))
      ⊎ ((Maps.contains ip ips ≡ false)
          × (limit ≤ length ips)
          × (r.0 ≡ err (ip_limit_reached u (length ips) limit))
          × (user_ips r.1 u ≡ ips))
      ⊎ ((Maps.contains ip ips ≡ false)
          × (length ips < limit)
          × (r.0 ≡ ok tt)
          × (user_ips r.1 u ≡ Maps.put ip ips))
unfolding add_under
limited limit u ip t = ground (
  arith,
  user_ips-store_ips u u (user_ips t u) t,
  user_ips-store_ips u u (Maps.put ip (user_ips t u)) t,
  string_eq.beq_iff u u,
)

pub check-eq-add :
    (u : String) (ip : IpAddr) (t : UserIpTracker)
    → check_and_add u ip t ≡ add_under (get_user_limit u t) u ip t
unfolding check_and_add get_user_limit
check-eq-add u ip t = refl

-- The address of a call that returned `ok` joins the set of its user, and nothing else changes.
pub is_ip_active-check_and_add :
    (v u : String) (jp ip : IpAddr) (t : UserIpTracker)
    → is_ip_active v jp (check_and_add u ip t).1 ≡ (
        elim (check_and_add u ip t).0 [ ok done ↦ (u =? v) && (ip =? jp) | err e ↦ false ]
        || is_ip_active v jp t)
is_ip_active-check_and_add v u jp ip t =
    let limit = get_user_limit u t in
    let r = add_under limit u ip t in
    rw (check-eq-add u ip t) (
      ground (
        arith,
        user_ips-add_under limit v u ip t,
        active-user_ips v jp r.1,
        active-user_ips v jp t,
        Maps.contains-put jp ip (user_ips t u),
        string_eq.beq_iff u v,
      ))

-- `remove_ip` takes out the one address of the one user, and nothing else.
pub is_ip_active-remove_ip :
    (v u : String) (jp ip : IpAddr) (t : UserIpTracker)
    → is_ip_active v jp (remove_ip u ip t)
      ≡ (if (u =? v) && (ip =? jp) then false else is_ip_active v jp t)
is_ip_active-remove_ip v u jp ip t = ground (
  arith,
  active-user_ips v jp (remove_ip u ip t),
  active-user_ips v jp t,
  user_ips-remove_ip v u ip t,
  Maps.contains-delete jp ip (user_ips t u),
  string_eq.beq_iff u v,
)
