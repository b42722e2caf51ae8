-- ===== src/Stats/Replay/Later.antt =====
-- The calls that may come between two calls on a checker.
use v3mtp.Prelude.{ℕ, ◌≤◌, ◌≡◌, arith, true, false, Bool, List, ◌∷◌}
use v3mtp.Stats.Replay.{Lru, ReplayChecker, check_and_add_internal, add_only, cleanup_all}
use v3mtp.Stats.Replay.Sound.{Log, seen_since}
use v3mtp.Stats.Replay.Sound.Calls.{log_after}
use v3mtp.Stats.Replay.Checker.{Reach, checks, adds, cleans}

module _ (lru : Lru) (hash : List ℕ → ℕ) where
  -- From one checker, with its log and its time, to another, by calls of any kind.
  pub data Later (origin : ReplayChecker lru) (known : Log) (begun : ℕ)
      : ReplayChecker lru → Log → ℕ → Type 0 where
    at_once : Later origin known begun origin known begun
    then_checks :
        {r : ReplayChecker lru} {log : Log} {t : ℕ} (key : List ℕ) (now : ℕ)
        → Later origin known begun r log t
        → t ≤ now
        → Later origin known begun
            (check_and_add_internal lru hash key now r).1
            (log_after lru (check_and_add_internal lru hash key now r).0 key now log)
            now
    then_adds :
        {r : ReplayChecker lru} {log : Log} {t : ℕ} (key : List ℕ) (now : ℕ)
        → Later origin known begun r log t
        → t ≤ now
        → Later origin known begun (add_only lru hash key now r) ((key, now) ∷ log) now
    then_cleans :
        {r : ReplayChecker lru} {log : Log} {t : ℕ} (now : ℕ)
        → Later origin known begun r log t
        → t ≤ now
        → Later origin known begun
            (record r { shards = cleanup_all lru now r.window r.shards })
            log
            now

  -- Calls after a history of calls are one history.
  pub Later-Reach :
      {total window start : ℕ} {origin : ReplayChecker lru} {known : Log} {begun : ℕ}
      {r : ReplayChecker lru} {log : Log} {t : ℕ}
      → Reach lru hash total window start origin known begun
      → Later origin known begun r log t
      → Reach lru hash total window start r log t
  Later-Reach path at_once = path
  Later-Reach path (then_checks key now more late) = checks key now (Later-Reach path more) late
  Later-Reach path (then_adds key now more late) = adds key now (Later-Reach path more) late
  Later-Reach path (then_cleans now more late) = cleans now (Later-Reach path more) late

  seen-log_after :
      (found : Bool) (key added : List ℕ) (since now : ℕ) (log : Log)
      → seen_since key since log ≡ true
      → seen_since key since (log_after lru found added now log) ≡ true
  seen-log_after true key added since now log h = h
  seen-log_after false key added since now log h = ground (arith, h)

  -- What was added stays in the log.
  pub Later-seen :
      {origin : ReplayChecker lru} {known : Log} {begun : ℕ} {r : ReplayChecker lru} {log : Log}
      {t : ℕ} (key : List ℕ) (since : ℕ)
      → Later origin known begun r log t
      → seen_since key since known ≡ true
      → seen_since key since log ≡ true
  Later-seen key since at_once h = h
  Later-seen key since (then_checks {r} {log} added now more late) h =
      seen-log_after (check_and_add_internal lru hash added now r).0 key added since now log
        (Later-seen key since more h)
  Later-seen key since (then_adds {r} {log} added now more late) h =
      seen-log_after false key added since now log (Later-seen key since more h)
  Later-seen key since (then_cleans now more late) h = Later-seen key since more h
