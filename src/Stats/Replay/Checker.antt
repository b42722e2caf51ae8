-- ===== src/Stats/Replay/Checker.antt =====
-- The checker over its shards, through any history of calls.
use mathlib.Core.Path.{subst}
use v3mtp.Prelude.{
  ℕ, zero, suc, ◌/◌, ◌≤◌, ◌<◌, max, ◌≡◌, inl, inr, refl, sym, ap, ◌∙◌, arith, Bool, true, false,
  List, [], ◌∷◌, ◌==◌, if◌then◌else◌, Bool-cases, length, get_or, set, replicate,
}
use v3mtp.Stats.Replay.{
  Lru, ReplayShard, new_shard, cleanup, add, check_and_add, ReplayChecker, new, num_shards,
  shard_at, get_shard_idx, check_and_add_internal, add_only, cleanup_all,
}
use v3mtp.Stats.Replay.Sound.{Log, seen_since, horizon, IsSound, cleanup-IsSound}
use v3mtp.Stats.Replay.Sound.Calls.{
  check_sound, add-IsSound, check_and_add-IsSound, log-IsSound, later-IsSound, log_after,
  new_shard-IsSound,
}

get_or-set {ℓ} :
    {A : Type ℓ} (i j : ℕ) (v d : A) (xs : List A)
    → i < length xs
    → get_or (set xs i v) j d ≡ (if i == j then v else get_or xs j d)
get_or-set i j v d [] h = absurd (omega arith)
get_or-set zero zero v d (x ∷ xs) h = refl
get_or-set zero (suc j) v d (x ∷ xs) h = ground arith
get_or-set (suc i) zero v d (x ∷ xs) h = ground arith
get_or-set (suc i) (suc j) v d (x ∷ xs) h = ground (arith, get_or-set i j v d xs)

length-set {ℓ} : {A : Type ℓ} (i : ℕ) (v : A) (xs : List A) → length (set xs i v) ≡ length xs
length-set i v [] = refl
length-set zero v (x ∷ xs) = refl
length-set (suc i) v (x ∷ xs) = ap suc (length-set i v xs)

pub get_or-replicate {ℓ} : {A : Type ℓ} (n i : ℕ) (v d : A) → i < n → get_or (replicate n v) i d ≡ v
get_or-replicate zero i v d h = absurd (omega arith)
get_or-replicate (suc n) zero v d h = refl
get_or-replicate (suc n) (suc i) v d h = get_or-replicate n i v d (omega arith)

length-replicate {ℓ} : {A : Type ℓ} (n : ℕ) (v : A) → length (replicate n v) ≡ n
length-replicate zero v = refl
length-replicate (suc n) v = ap suc (length-replicate n v)

module _ (lru : Lru) (hash : List ℕ → ℕ) where
  length-cleanup_all :
      (now window : ℕ) (shards : List (ReplayShard lru))
      → length (cleanup_all lru now window shards) ≡ length shards
  unfolding cleanup_all
  length-cleanup_all now window [] = refl
  length-cleanup_all now window (s ∷ shards) = ap suc (length-cleanup_all now window shards)

  pub get_or-cleanup_all :
      (i now window : ℕ) (d : ReplayShard lru) (shards : List (ReplayShard lru))
      → i < length shards
      → get_or (cleanup_all lru now window shards) i d ≡ cleanup lru now window (get_or shards i d)
  unfolding cleanup_all
  get_or-cleanup_all i now window d [] h = absurd (omega arith)
  get_or-cleanup_all zero now window d (s ∷ shards) h = refl
  get_or-cleanup_all (suc i) now window d (s ∷ shards) h =
      get_or-cleanup_all i now window d shards (omega arith)

  -- The histories of calls on a new checker, in the order in which the shards' locks are taken,
  -- with the additions so far and the time of the last call.
  pub data Reach (total window start : ℕ) : ReplayChecker lru → Log → ℕ → Type 0 where
    fresh : Reach total window start (new lru total window) [] start
    checks :
        {r : ReplayChecker lru} {log : Log} {t : ℕ} (key : List ℕ) (now : ℕ)
        → Reach total window start r log t
        → t ≤ now
        → Reach total window start
            (check_and_add_internal lru hash key now r).1
            (log_after lru (check_and_add_internal lru hash key now r).0 key now log)
            now
    adds :
        {r : ReplayChecker lru} {log : Log} {t : ℕ} (key : List ℕ) (now : ℕ)
        → Reach total window start r log t
        → t ≤ now
        → Reach total window start (add_only lru hash key now r) ((key, now) ∷ log) now
    cleans :
        {r : ReplayChecker lru} {log : Log} {t : ℕ} (now : ℕ)
        → Reach total window start r log t
        → t ≤ now
        → Reach total window start
            (record r { shards = cleanup_all lru now r.window r.shards })
            log
            now

  -- The shard of an index, after one shard is replaced.
  shard_at-set :
      (i j : ℕ) (s : ReplayShard lru) (r : ReplayChecker lru)
      → length r.shards ≡ num_shards
      → i < num_shards
      → shard_at lru (record r { shards = set r.shards i s }) j
        ≡ (if i == j then s else shard_at lru r j)
  shard_at-set i j s r e h = get_or-set i j s (new_shard lru 1) r.shards (omega (arith, e))

  pub idx-lt : (key : List ℕ) → get_shard_idx lru hash key < num_shards
  unfolding get_shard_idx
  idx-lt key = omega arith

  -- What holds of the new shard, and of each other, holds of every shard afterwards.
  pub lift {ℓ} :
      (P : ReplayShard lru → Type ℓ) (i j : ℕ) (s : ReplayShard lru) (r : ReplayChecker lru)
      → length r.shards ≡ num_shards
      → i < num_shards
      → (i ≡ j → P s)
      → ((i == j) ≡ false → P (shard_at lru r j))
      → P (shard_at lru (record r { shards = set r.shards i s }) j)
  lift P i j s r e h own other = elim (Bool-cases (i == j)) [
    | inl same ↦
        subst P (sym (shard_at-set i j s r e h ∙ ap (λ b. if b then s else shard_at lru r j) same))
          (own (ground (arith, same)))
    | inr apart ↦
        subst P (sym (shard_at-set i j s r e h ∙ ap (λ b. if b then s else shard_at lru r j) apart))
          (other apart)
  ]

  pub record IsWide (window : ℕ) (r : ReplayChecker lru) : Type 0 where
    pub wide : length r.shards ≡ num_shards
    pub kept : r.window ≡ window

  -- A shard that a call leaves alone.
  log_after-IsSound :
      (found : Bool) (t now : ℕ) (key : List ℕ) (s : ReplayShard lru) (log : Log)
      → t ≤ now
      → IsSound lru s log t
      → IsSound lru s (log_after lru found key now log) now
  log_after-IsSound true t now key s log late v = later-IsSound lru t now s log late v
  log_after-IsSound false t now key s log late v =
      log-IsSound lru now s log key now (later-IsSound lru t now s log late v)

  module _ {total window start : ℕ} where
    pub Reach-IsWide :
        {r : ReplayChecker lru} {log : Log} {t : ℕ}
        → Reach total window start r log t
        → IsWide window r
    unfolding new check_and_add_internal add_only
    Reach-IsWide fresh = record {
      wide = length-replicate num_shards (new_shard lru (max (total / num_shards) 1));
      kept = refl;
    }
    Reach-IsWide (checks key now path late) =
        let v = Reach-IsWide path in record { wide = length-set _ _ _ ∙ v.wide; kept = v.kept }
    Reach-IsWide (adds key now path late) =
        let v = Reach-IsWide path in record { wide = length-set _ _ _ ∙ v.wide; kept = v.kept }
    Reach-IsWide (cleans now path late) =
        let v = Reach-IsWide path in
        record { wide = length-cleanup_all now _ _ ∙ v.wide; kept = v.kept }

    pub Reach-le :
        {r : ReplayChecker lru} {log : Log} {t : ℕ} → Reach total window start r log t → start ≤ t
    Reach-le fresh = omega arith
    Reach-le (checks key now path late) = omega (arith, Reach-le path, late)
    Reach-le (adds key now path late) = omega (arith, Reach-le path, late)
    Reach-le (cleans now path late) = omega (arith, Reach-le path, late)

    Reach-IsSound :
        {r : ReplayChecker lru} {log : Log} {t : ℕ}
        → Reach total window start r log t
        → (i : ℕ) → i < num_shards
        → IsSound lru (shard_at lru r i) log t
    unfolding new check_and_add_internal add_only
    Reach-IsSound fresh i h =
        subst (λ s. IsSound lru s [] start)
          (sym (
            get_or-replicate num_shards i (new_shard lru (max (total / num_shards) 1))
              (new_shard lru 1) h))
          (new_shard-IsSound lru (max (total / num_shards) 1) start (omega arith))
    Reach-IsSound (checks {r} {log} {t} key now path late) i h =
        let k = get_shard_idx lru hash key in
        let call = check_and_add lru key now r.window (shard_at lru r k) in
        lift (λ s. IsSound lru s (log_after lru call.0 key now log) now) k i call.1 r
          (Reach-IsWide path).wide (idx-lt key)
          (λ same.
            check_and_add-IsSound lru t now r.window key (shard_at lru r k) log late
              (Reach-IsSound path k (idx-lt key)))
          (λ apart.
            log_after-IsSound call.0 t now key (shard_at lru r i) log late (Reach-IsSound path i h))
    Reach-IsSound (adds {r} {log} {t} key now path late) i h =
        let k = get_shard_idx lru hash key in
        lift (λ s. IsSound lru s ((key, now) ∷ log) now) k i
          (add lru key now r.window (shard_at lru r k)) r (Reach-IsWide path).wide (idx-lt key)
          (λ same.
            add-IsSound lru t now r.window key (shard_at lru r k) log late
              (Reach-IsSound path k (idx-lt key)))
          (λ apart.
            log_after-IsSound false t now key (shard_at lru r i) log late (Reach-IsSound path i h))
    Reach-IsSound (cleans {r} {log} {t} now path late) i h =
        subst (λ s. IsSound lru s log now)
          (sym (
            get_or-cleanup_all i now r.window (new_shard lru 1) r.shards
              (omega (arith, (Reach-IsWide path).wide))))
          (cleanup-IsSound lru t now r.window (shard_at lru r i) log late
            (Reach-IsSound path i h)).0

    -- A key that the checker reports was added since the horizon, whatever the capacity.
    pub check_and_add_sound :
        {r : ReplayChecker lru} {log : Log} {t : ℕ} (key : List ℕ) (now : ℕ)
        → Reach total window start r log t
        → t ≤ now
        → (check_and_add_internal lru hash key now r).0 ≡ true
        → seen_since key (horizon now window) log ≡ true
    unfolding check_and_add_internal check_and_add
    check_and_add_sound {r} {log} {t} key now path late found =
        let k = get_shard_idx lru hash key in
        subst (λ w. seen_since key (horizon now w) log ≡ true) (Reach-IsWide path).kept
          (check_sound lru t now r.window key (shard_at lru r k) log late
            (Reach-IsSound path k (idx-lt key)) (ground (arith, found)))
