-- ===== src/Stats/Replay/Examples.antt =====
-- A key that is sent twice, on a sample cache and with a sample hash.
use v3mtp.Prelude.{◌≡◌, arith, [], ◌∷◌, length}
use v3mtp.Stats.Replay.{ReplayChecker, new, check_and_add_internal}
use v3mtp.Stats.Replay.Sound.{seen_since, horizon}
use v3mtp.Stats.Replay.Checker.{Reach, fresh, adds}
use v3mtp.Stats.Replay.Exact.{check_and_add_exact}
use v3mtp.Stats.Replay.{add_only}
use v3mtp.Stats.Replay.Sample.{sample_lru}

abbrev once : ReplayChecker sample_lru
once = add_only sample_lru length (5 ∷ 6 ∷ []) 120 (new sample_lru 640 30)

once_reached : Reach sample_lru length 640 30 100 once ((5 ∷ 6 ∷ [], 120) ∷ []) 120
once_reached = adds (5 ∷ 6 ∷ []) 120 fresh (omega arith)

check_and_add_exact_example :
    (check_and_add_internal sample_lru length (5 ∷ 6 ∷ []) 140 once).0
    ≡ seen_since (5 ∷ 6 ∷ []) (horizon 140 30) ((5 ∷ 6 ∷ [], 120) ∷ [])
check_and_add_exact_example =
    check_and_add_exact sample_lru length (omega arith) (omega arith) (5 ∷ 6 ∷ []) 140 once_reached
      (omega arith) (omega arith)
