-- ===== src/IpTracker/Outcomes.antt =====
-- Every outcome of `check_and_add`.
use Prim.Native.String.{String}
use v3mtp.Prelude.{
  ℕ, ◌+◌, ◌≤◌, ◌<◌, ◌≡◌, ◌⊎◌, refl, sym, ap, ◌∙◌, true, false, ◌&&◌, ◌||◌, List, Option, none, some,
  ok, err, arith, length, inl, inr, ◌=?◌, string_eq, =?_refl, if◌then◌else◌,
}
use v3mtp.Prelude.Maps
use v3mtp.Network.Addr.{IpAddr, ip_eq}
use v3mtp.IpTracker.{
  UserIpTracker, ip_limit_reached, user_ips, add_under, check_and_add, get_active_ip_count,
  is_ip_active, get_user_limit,
}
use v3mtp.IpTracker.Laws.{
  limited, check-eq-add, active-user_ips, count-user_ips, user_ips-add_under,
  is_ip_active-check_and_add,
}

-- There is room for the address: the user has no limit, or the address is active, or fewer are.
abbrev pub HasRoom : Option ℕ → String → IpAddr → UserIpTracker → Type 0
HasRoom none u ip t = Unit
HasRoom (some limit) u ip t = (is_ip_active u ip t ≡ true) ⊎ (get_active_ip_count u t < limit)

-- Either there was room, and the address is active afterwards; or there was none, and the call fails. No
-- other address of any user becomes active or inactive, and the count is that of the addresses.
abbrev pub Outcome : String → IpAddr → UserIpTracker → Type 0
Outcome u ip t =
    let r = check_and_add u ip t in
    let count = get_active_ip_count u t in
    ((r.0 ≡ ok tt)
      × HasRoom (get_user_limit u t) u ip t
      × ((v : String) (jp : IpAddr)
          → is_ip_active v jp r.1 ≡ (((u =? v) && (ip =? jp)) || is_ip_active v jp t))
      × (get_active_ip_count u r.1 ≡ (if is_ip_active u ip t then count else count + 1)))
    ⊎ ((limit : ℕ) × (get_user_limit u t ≡ some limit)
        × (is_ip_active u ip t ≡ false)
        × (limit ≤ count)
        × (r.0 ≡ err (ip_limit_reached u count limit))
        × ((v : String) (jp : IpAddr) → is_ip_active v jp r.1 ≡ is_ip_active v jp t)
        × (get_active_ip_count u r.1 ≡ count))

length-put :
    (ip : IpAddr) (ips : List IpAddr)
    → length (Maps.put ip ips) ≡ (if Maps.contains ip ips then length ips else length ips + 1)
unfolding Maps.put
length-put ip ips = ground arith

-- Where the call for `limit` returned `ok`, with room, or the error, without.
admitted :
    (u : String) (ip : IpAddr) (t : UserIpTracker)
    → (check_and_add u ip t).0 ≡ ok tt
    → HasRoom (get_user_limit u t) u ip t
    → Outcome u ip t
admitted u ip t done room =
    let limit = get_user_limit u t in
    let r = add_under limit u ip t in
    let same = check-eq-add u ip t in
    let count : get_active_ip_count u r.1
        ≡ (if is_ip_active u ip t then get_active_ip_count u t else get_active_ip_count u t + 1) =
      ground (
        arith,
        rw same at done,
        user_ips-add_under limit u u ip t,
        count-user_ips u r.1,
        count-user_ips u t,
        active-user_ips u ip t,
        length-put ip (user_ips t u),
        =?_refl u,
      ) in
    inl (done, room, (λ v jp. rw done at (is_ip_active-check_and_add v u jp ip t)), rw same count)

refused :
    (limit : ℕ) (u : String) (ip : IpAddr) (t : UserIpTracker)
    → get_user_limit u t ≡ some limit
    → is_ip_active u ip t ≡ false
    → limit ≤ get_active_ip_count u t
    → (check_and_add u ip t).0 ≡ err (ip_limit_reached u (get_active_ip_count u t) limit)
    → user_ips (check_and_add u ip t).1 u ≡ user_ips t u
    → Outcome u ip t
refused limit u ip t known inactive full failed left = inr (
  limit,
  known,
  inactive,
  full,
  failed,
  (λ v jp. rw failed at (is_ip_active-check_and_add v u jp ip t)),
  count-user_ips u (check_and_add u ip t).1 ∙ ap length left ∙ sym (count-user_ips u t),
)

by_limit :
    (limit : Option ℕ) (u : String) (ip : IpAddr) (t : UserIpTracker)
    → get_user_limit u t ≡ limit
    → check_and_add u ip t ≡ add_under limit u ip t
    → Outcome u ip t
by_limit none u ip t e same = admitted u ip t (rw same (unfold add_under in refl)) (rw e tt)
by_limit (some limit) u ip t e same = elim (limited limit u ip t) [
  | inl (there, done, left) ↦
      admitted u ip t (rw same done) (rw e (inl (active-user_ips u ip t ∙ there)))
  | inr (inl (new_ip, full, failed, left)) ↦
      refused limit u ip t e (active-user_ips u ip t ∙ new_ip) (omega (arith, count-user_ips u t))
        (rw (same, count-user_ips u t) failed) (rw same left)
  | inr (inr (new_ip, room, done, left)) ↦
      admitted u ip t (rw same done) (rw e (inr (omega (arith, count-user_ips u t))))
]

-- For any tracker, user and address: either there was room, the call succeeds, the address joins the
-- active ones of its user, and the count grows by one exactly if it was new; or there was none, the
-- address being new and the limit reached, the call fails with the count and the limit, and the
-- count stays. No other address of any user becomes active or inactive.
pub check_and_add-Outcome : (u : String) (ip : IpAddr) (t : UserIpTracker) → Outcome u ip t
check_and_add-Outcome u ip t = by_limit (get_user_limit u t) u ip t refl (check-eq-add u ip t)
