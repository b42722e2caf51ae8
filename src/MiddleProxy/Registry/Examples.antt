-- ===== src/MiddleProxy/Registry/Examples.antt =====
-- Runs of the registry, and the theorems at concrete inputs.
use v3mtp.Prelude.{ℕ, ◌≤◌, ◌≡◌, refl, true, List, [], ◌∷◌, none, nat_eq}
use v3mtp.Prelude.Maps
use v3mtp.MiddleProxy.Registry.{ConnRegistry, new, register, bind_writer, writer_lost, bound_conns}
use v3mtp.MiddleProxy.Registry.Laws.{writer_of, has_conn}
use v3mtp.MiddleProxy.Registry.Invariant.{Call, registers, binds, step, run, after}
use v3mtp.MiddleProxy.Registry.Exact.{
  Step, Reach, here, next, IsInverse, Reach-new-IsInverse, writer_lost_frees,
}
use v3mtp.MiddleProxy.Registry.Route.{update_policy, route_timeout, route_timeout_bounds}

-- Channels and meta data are numbers here.
abbrev two_bound : List (Call ℕ ℕ ℕ)
two_bound = registers 100 ∷ binds 1 7 70 5 ∷ registers 101 ∷ binds 2 7 70 6 ∷ []

lost_both : (writer_lost ℕ ℕ ℕ 7 (after ℕ ℕ ℕ 1 two_bound)).0 ≡ (2, 6) ∷ (1, 5) ∷ []
unfolding run step new register bind_writer writer_lost bound_conns Maps.get Maps.insert
    Maps.or_insert Maps.put Maps.contains
lost_both = refl

one_bound : ConnRegistry ℕ ℕ ℕ
one_bound = bind_writer ℕ ℕ ℕ 1 7 70 5 (register ℕ ℕ ℕ 100 (new ℕ ℕ ℕ 1)).1

one_bound_reached : Reach ℕ ℕ ℕ (new ℕ ℕ ℕ 1) one_bound
unfolding one_bound new register Maps.get
one_bound_reached = next (next here (Step.registers 100 _)) (Step.binds 1 7 70 5 _ refl)

Reach-new-IsInverse_example : IsInverse ℕ ℕ ℕ one_bound
Reach-new-IsInverse_example = Reach-new-IsInverse ℕ ℕ ℕ 1 one_bound one_bound_reached

writer_lost_frees_example :
    (writer_of ℕ ℕ ℕ (writer_lost ℕ ℕ ℕ 7 one_bound).1 1 ≡ none)
    × (has_conn 1 (writer_lost ℕ ℕ ℕ 7 one_bound).0 ≡ true)
unfolding one_bound new register bind_writer Maps.get Maps.insert Maps.or_insert Maps.put
    Maps.contains
writer_lost_frees_example = writer_lost_frees ℕ ℕ ℕ 1 7 1 one_bound one_bound_reached

route_timeout_bounds_example :
    (1 ≤ route_timeout (update_policy 0 10 80) 4000)
    × ((update_policy 0 10 80).base_timeout_ms ≤ route_timeout (update_policy 0 10 80) 4000)
    × (route_timeout (update_policy 0 10 80) 4000 ≤ (update_policy 0 10 80).high_timeout_ms)
    × (route_timeout (update_policy 0 10 80) 0 ≡ (update_policy 0 10 80).high_timeout_ms)
    × (1 ≤ (update_policy 0 10 80).high_watermark_pct)
    × ((update_policy 0 10 80).high_watermark_pct ≤ 100)
route_timeout_bounds_example = route_timeout_bounds 0 10 80 4000
