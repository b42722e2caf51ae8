-- ===== src/Stats/Replay/Exact.antt =====
-- The checker against the log of the additions, while no shard has been full.
use mathlib.Core.Path.{subst}
use v3mtp.Prelude.{
  ℕ, ◌/◌, ◌^◌, ◌≤◌, ◌<◌, max, ◌≡◌, inl, inr, sym, ◌∙◌, arith, Bool, true, false, List, [], ◌∷◌,
  ◌==◌, Bool-cases, length,
}
use v3mtp.Stats.Replay.{
  Lru, ReplayShard, new_shard, cutoff_of, cleanup, check, add, check_and_add, ReplayChecker, new,
  num_shards, shard_at, get_shard_idx, check_and_add_internal, add_only,
}
use v3mtp.Stats.Replay.Sound.{Log, seen_since, horizon}
use v3mtp.Stats.Replay.Sound.Calls.{log_after}
use v3mtp.Stats.Replay.Complete.{IsComplete, cleanup-IsComplete}
use v3mtp.Stats.Replay.Complete.Calls.{
  check_complete, add-IsComplete, check_and_add-IsComplete, log-IsComplete, new_shard-IsComplete,
}
use v3mtp.Stats.Replay.Checker.{
  Reach, fresh, checks, adds, cleans, lift, idx-lt, Reach-IsWide, Reach-le, get_or-replicate,
  get_or-cleanup_all, check_and_add_sound,
}

horizon_mono : (s t window : ℕ) → s ≤ t → window ≤ s → horizon s window ≤ horizon t window
unfolding cutoff_of
horizon_mono s t window h k = ground arith

module _ (lru : Lru) (hash : List ℕ → ℕ) where
  -- Whether a shard has the keys of index `i`.
  abbrev pub owns : ℕ → List ℕ → Bool
  owns i key = get_shard_idx lru hash key == i

  later-IsComplete :
      (i n from t now window : ℕ) (s : ReplayShard lru) (log : Log)
      → t ≤ now
      → from ≤ horizon now window
      → IsComplete lru (owns i) n s log from t
      → IsComplete lru (owns i) n s log (horizon now window) now
  later-IsComplete i n from t now window s log late h v = record {
    dated = λ k at a. omega (arith, v.dated k at a, late);
    held = λ k at o f a. v.held k at o (omega (arith, f, h)) a;
    matched = v.matched;
    numbered = v.numbered;
    known = v.known;
    counted = v.counted;
    filled = v.filled;
    sized = v.sized;
  }

  log_after-IsComplete :
      (found : Bool) (i n from t now window : ℕ) (key : List ℕ) (s : ReplayShard lru) (log : Log)
      → t ≤ now
      → from ≤ horizon now window
      → owns i key ≡ false
      → IsComplete lru (owns i) n s log from t
      → IsComplete lru (owns i) n s (log_after lru found key now log) (horizon now window) now
  log_after-IsComplete true i n from t now window key s log late h o v =
      later-IsComplete i n from t now window s log late h v
  log_after-IsComplete false i n from t now window key s log late h o v =
      log-IsComplete lru (owns i) n (horizon now window) now key s log o
        (later-IsComplete i n from t now window s log late h v)

  log_after-le :
      (found : Bool) (key : List ℕ) (now : ℕ) (log : Log)
      → length log ≤ length (log_after lru found key now log)
  log_after-le true key now log = omega arith
  log_after-le false key now log = omega arith

  -- The capacity of each shard.
  abbrev pub shard_capacity : ℕ → ℕ
  shard_capacity total = max (total / num_shards) 1

  module _ {total window start : ℕ} (word : shard_capacity total < 2 ^ 64)
      (old : window ≤ start) where
    Reach-IsComplete :
        {r : ReplayChecker lru} {log : Log} {t : ℕ}
        → Reach lru hash total window start r log t
        → length log < shard_capacity total
        → (i : ℕ) → i < num_shards
        → IsComplete lru (owns i) (shard_capacity total) (shard_at lru r i) log (horizon t window) t
    unfolding new check_and_add_internal add_only
    Reach-IsComplete fresh few i h =
        subst
          (λ s. IsComplete lru (owns i) (shard_capacity total) s [] (horizon start window) start)
          (sym (
            get_or-replicate num_shards i (new_shard lru (shard_capacity total)) (new_shard lru 1)
              h))
          (new_shard-IsComplete lru (owns i) (shard_capacity total) (horizon start window) start)
    Reach-IsComplete (checks {r} {log} {t} key now path late) few i h =
        let k = get_shard_idx lru hash key in
        let same_window = (Reach-IsWide lru hash path).kept in
        let n = shard_capacity total in
        let call = check_and_add lru key now r.window (shard_at lru r k) in
        let before : length log < n = omega (arith, few, log_after-le call.0 key now log) in
        let order = horizon_mono t now window late (omega (arith, old, Reach-le lru hash path)) in
        lift lru hash
          (λ s.
            IsComplete lru (owns i) n s (log_after lru call.0 key now log) (horizon now window) now)
          k i call.1 r (Reach-IsWide lru hash path).wide (idx-lt lru hash key)
          (λ same.
            subst
              (λ w.
                IsComplete lru (owns i) n (check_and_add lru key now w (shard_at lru r k)).1
                  (log_after lru (check_and_add lru key now w (shard_at lru r k)).0 key now log)
                  (horizon now window) now)
              (sym same_window)
              (check_and_add-IsComplete lru (owns i) n t (horizon t window) now window key
                (shard_at lru r k) log late order before word
                (subst (λ j. IsComplete lru (owns i) n (shard_at lru r j) log (horizon t window) t)
                  (sym same) (Reach-IsComplete path before i h))))
          (λ apart.
            log_after-IsComplete call.0 i n (horizon t window) t now window key (shard_at lru r i)
              log late order apart (Reach-IsComplete path before i h))
    Reach-IsComplete (adds {r} {log} {t} key now path late) few i h =
        let k = get_shard_idx lru hash key in
        let same_window = (Reach-IsWide lru hash path).kept in
        let n = shard_capacity total in
        let before : length log < n = omega (arith, few) in
        let order = horizon_mono t now window late (omega (arith, old, Reach-le lru hash path)) in
        lift lru hash (λ s. IsComplete lru (owns i) n s ((key, now) ∷ log) (horizon now window) now)
          k i (add lru key now r.window (shard_at lru r k)) r (Reach-IsWide lru hash path).wide
          (idx-lt lru hash key)
          (λ same.
            subst
              (λ w.
                IsComplete lru (owns i) n (add lru key now w (shard_at lru r k)) ((key, now) ∷ log)
                  (horizon now window) now)
              (sym same_window)
              (add-IsComplete lru (owns i) n t (horizon t window) now window key (shard_at lru r k)
                log late order before word
                (subst (λ j. IsComplete lru (owns i) n (shard_at lru r j) log (horizon t window) t)
                  (sym same) (Reach-IsComplete path before i h))))
          (λ apart.
            log_after-IsComplete false i n (horizon t window) t now window key (shard_at lru r i)
              log late order apart (Reach-IsComplete path before i h))
    Reach-IsComplete (cleans {r} {log} {t} now path late) few i h =
        let same_window = (Reach-IsWide lru hash path).kept in
        let n = shard_capacity total in
        subst (λ s. IsComplete lru (owns i) n s log (horizon now window) now)
          (sym (
            get_or-cleanup_all lru hash i now r.window (new_shard lru 1) r.shards
              (omega (arith, (Reach-IsWide lru hash path).wide))))
          (subst
            (λ w.
              IsComplete lru (owns i) n (cleanup lru now w (shard_at lru r i)) log
                (horizon now window) now)
            (sym same_window)
            (cleanup-IsComplete lru (owns i) n t (horizon t window) now window (shard_at lru r i)
              log late (horizon_mono t now window late (omega (arith, old, Reach-le lru hash path)))
              (Reach-IsComplete path few i h)))

    found :
        {r : ReplayChecker lru} {log : Log} {t : ℕ} (key : List ℕ) (now : ℕ)
        → Reach lru hash total window start r log t
        → length log < shard_capacity total
        → t ≤ now
        → seen_since key (horizon now window) log ≡ true
        → (check_and_add_internal lru hash key now r).0 ≡ true
    unfolding check_and_add_internal check_and_add
    found {r} {log} {t} key now path few late added =
        let k = get_shard_idx lru hash key in
        let hit : (check lru key now r.window (shard_at lru r k)).0 ≡ true =
          subst (λ w. (check lru key now w (shard_at lru r k)).0 ≡ true)
            (sym (Reach-IsWide lru hash path).kept)
            (check_complete lru (owns k) (shard_capacity total) t (horizon t window) now window key
              (shard_at lru r k) log late
              (horizon_mono t now window late (omega (arith, old, Reach-le lru hash path)))
              (Reach-IsComplete path few k (idx-lt lru hash key)) (ground arith) added) in
        ground (arith, hit)

    -- For a checker made at a time `start` that is no earlier than the window (instants count from the
    -- earliest one), whose shards hold fewer than 2 ^ 64 keys each, and to which fewer keys were added
    -- than one shard holds: after any history of calls from `start` on, a key is reported exactly when
    -- it was added since the horizon.
    pub check_and_add_exact :
        {r : ReplayChecker lru} {log : Log} {t : ℕ} (key : List ℕ) (now : ℕ)
        → Reach lru hash total window start r log t
        → length log < shard_capacity total
        → t ≤ now
        → (check_and_add_internal lru hash key now r).0 ≡ seen_since key (horizon now window) log
    check_and_add_exact {r} {log} {t} key now path few late =
        let answer = (check_and_add_internal lru hash key now r).0 in
        let seen = seen_since key (horizon now window) log in
        elim (Bool-cases seen) [
          | inl added ↦ found key now path few late added ∙ sym added
          | inr absent ↦ elim (Bool-cases answer) [
            | inl told ↦
                absurd (ground (arith, absent, check_and_add_sound lru hash key now path late told))
            | inr not_told ↦ not_told ∙ sym absent
          ]
        ]
