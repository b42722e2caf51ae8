-- ===== src/IpTracker/Limits.antt =====
-- Histories of calls on a tracker: the sets stay sets, and no user exceeds the limit.
use Prim.Native.String.{String}
use v3mtp.Prelude.{
  ℕ, ◌≤◌, ◌≡◌, inl, inr, true, List, [], ◌∷◌, Option, some, arith, length, ◌=?◌, string_eq,
  Bool-cases, All,
}
use v3mtp.Prelude.Maps
use v3mtp.Network.Addr.{IpAddr, ip_eq}
use v3mtp.IpTracker.{UserIpTracker, user_ips, new, add_under, remove_ip, clear_user_ips, clear_all}
use v3mtp.IpTracker.Laws.{limited, user_ips-add_under, user_ips-remove_ip, user_ips-clear}

-- The calls that change the active addresses. `adds` carries the limit that its caller read
-- before it took the write lock.
pub data Call : Type 0 where
  adds : Option ℕ → String → IpAddr → Call
  removes : String → IpAddr → Call
  clears : String → Call
  clears_all : Call

unfoldable pub step : Call → UserIpTracker → UserIpTracker
step (adds limit u ip) t = (add_under limit u ip t).1
step (removes u ip) t = remove_ip u ip t
step (clears u) t = clear_user_ips u t
step clears_all t = clear_all t

unfoldable pub run : List Call → UserIpTracker → UserIpTracker
run [] t = t
run (c ∷ cs) t = run cs (step c t)

-- A call that adds for a user of limit `limit` has read that limit.
abbrev pub ReadsLimit : String → ℕ → Call → Type 0
ReadsLimit u limit (adds read v ip) = (v =? u) ≡ true → read ≡ some limit
ReadsLimit u limit _ = Unit {0}

-- The set of a user has no address twice and no more than the limit.
pub record Within (u : String) (limit : ℕ) (t : UserIpTracker) : Type 0 where
  pub distinct : Maps.Distinct (user_ips t u)
  pub bounded : length (user_ips t u) ≤ limit

abbrev pub SetWithin : ℕ → List IpAddr → Type 0
SetWithin limit ips = Maps.Distinct ips × (length ips ≤ limit)

-- What a call made for a set that keeps within the limit, where it added.
added-Within :
    (limit : ℕ) (u : String) (ip : IpAddr) (t : UserIpTracker)
    → SetWithin limit (user_ips t u)
    → SetWithin limit (user_ips (add_under (some limit) u ip t).1 u)
added-Within limit u ip t h = elim (limited limit u ip t) [
  | inl (there, done, left) ↦ rw left h
  | inr (inl (fresh, full, failed, left)) ↦ rw left h
  | inr (inr (fresh, room, done, left)) ↦
      rw left (
        Maps.put-Distinct ip (user_ips t u) h.0,
        omega (arith, Maps.length-put-le ip (user_ips t u)),
      )
]

set-Within :
    (c : Call) (u : String) (limit : ℕ) (t : UserIpTracker)
    → ReadsLimit u limit c
    → SetWithin limit (user_ips t u)
    → SetWithin limit (user_ips (step c t) u)
unfolding step clear_all Maps.get
set-Within (adds read v ip) u limit t reads h = elim (Bool-cases (v =? u)) [
  | inl same ↦
      let e : v ≡ u = (string_eq.beq_iff v u).0 same in
      rw (e, reads same) (added-Within limit u ip t h)
  | inr other ↦ rw (user_ips-add_under read u v ip t, other) h
]
set-Within (removes v ip) u limit t reads h = elim (Bool-cases (v =? u)) [
  | inl same ↦
      let e : v ≡ u = (string_eq.beq_iff v u).0 same in
      rw (user_ips-remove_ip u v ip t, same, e)
        (
          Maps.delete-Distinct ip (user_ips t u) h.0,
          omega (arith, Maps.length-delete-le ip (user_ips t u)),
        )
  | inr other ↦ rw (user_ips-remove_ip u v ip t, other) h
]
set-Within (clears v) u limit t reads h = elim (Bool-cases (v =? u)) [
  | inl same ↦ rw (user_ips-clear u v t, same) (tt, omega arith)
  | inr other ↦ rw (user_ips-clear u v t, other) h
]
set-Within clears_all u limit t reads h = (tt, omega arith)

pub step-Within :
    (c : Call) (u : String) (limit : ℕ) (t : UserIpTracker)
    → ReadsLimit u limit c
    → Within u limit t
    → Within u limit (step c t)
step-Within c u limit t reads h =
    let (d, b) = set-Within c u limit t reads (h.distinct, h.bounded) in
    record { distinct = d; bounded = b }

-- Through any history of calls of any users, in any order, in which the calls for `u` read the
-- limit `limit`, the set of `u` keeps what it had at the start: no address twice, and at most
-- `limit` addresses.
pub run-Within :
    (cs : List Call) (u : String) (limit : ℕ) (t : UserIpTracker)
    → All (ReadsLimit u limit) cs
    → Within u limit t
    → Within u limit (run cs t)
unfolding run
run-Within [] u limit t reads h = h
run-Within (c ∷ cs) u limit t reads h =
    run-Within cs u limit (step c t) reads.1 (step-Within c u limit t reads.0 h)

pub new-Within : (u : String) (limit : ℕ) → Within u limit new
unfolding new Maps.get
new-Within u limit = record { distinct = tt; bounded = omega arith }
