-- ===== src/Stats/Replay/Sound.antt =====
-- A shard reports only keys that were added within the window.
pub mod Calls
use v3mtp.Prelude.{
  ℕ, ◌+◌, ◌%◌, ◌^◌, ◌≤◌, ◌<◌, ◌≡◌, ◌⊎◌, inl, inr, refl, sym, ap, ◌∙◌, arith, Bool, true, false,
  ◌&&◌, ◌||◌, List, [], ◌∷◌, some, leb, ◌==◌, ◌=?◌, =?_refl, bytes_eq, same_bytes_iff,
  if◌then◌else◌, Bool-cases, Option-cases,
}
use v3mtp.Stats.Replay.{
  Lru, ReplayEntry, Item, ReplayShard, new_shard, forget, drain, cutoff_of, cleanup, check, push,
  add, check_and_add,
}
use v3mtp.Stats.Replay.Shard.{
  In, In-append, append-In, IsSince, IsUntil, IsSorted, IsUntil-mono, In-IsSince, append-IsUntil,
  append-IsSorted, drain_keeps, drain_drops, In-drain, drain-IsUntil, drain-IsSorted, peek-forget,
}

-- The additions so far, newest first: a key, and when it was added.
abbrev pub Log : Type 0
Log = List (List ℕ × ℕ)

-- Whether `key` was added at `t` or later.
abbrev pub seen_since : List ℕ → ℕ → Log → Bool
seen_since key t [] = false
seen_since key t ((k, at) ∷ log) = ((k =? key) && leb t at) || seen_since key t log

-- The oldest addition that still counts; a window of 0 stands for no limit.
abbrev pub horizon : ℕ → ℕ → ℕ
horizon now window = if window == 0 then 0 else cutoff_of now window

pub seen_since_mono :
    (key : List ℕ) (s t : ℕ) (log : Log)
    → s ≤ t
    → seen_since key t log ≡ true
    → seen_since key s log ≡ true
seen_since_mono key s t [] h e = e
seen_since_mono key s t ((k, at) ∷ log) h e = ground (arith, seen_since_mono key s t log h)

IsSince-zero : (xs : List Item) → IsSince 0 xs
IsSince-zero [] = tt
IsSince-zero (x ∷ xs) = (omega arith, IsSince-zero xs)

module _ (lru : Lru) where
  open lru use {
    Cache, peek, put, pop, touch, cap, peek-pop, peek-touch, peek-put_self, peek-put_other, cap-pop,
    cap-touch, cap-put, peek-new_cache, cap-new_cache,
  }

  -- Every entry of the cache has its element in the queue.
  abbrev pub IsCovered : Cache → List Item → Type 0
  IsCovered c queue =
      (k : List ℕ) (e : ReplayEntry)
      → peek k c ≡ some e
      → In (record { ts = e.seen_at; key = k; seq = e.seq }) queue

  pub record IsSound (s : ReplayShard lru) (log : Log) (now : ℕ) : Type 0 where
    pub usable : 0 < cap s.cache
    pub covered : IsCovered s.cache s.queue
    pub sorted : IsSorted s.queue
    pub past : IsUntil now s.queue
    pub logged : (item : Item) → In item s.queue → seen_since item.key item.ts log ≡ true

  cap-forget : (item : Item) (c : Cache) → cap (forget lru item c) ≡ cap c
  unfolding forget
  cap-forget item c = ground (arith, cap-pop item.key c)

  pub cap-drain :
      (cutoff : ℕ) (queue : List Item) (c : Cache) → cap (drain lru cutoff queue c).1 ≡ cap c
  unfolding drain
  cap-drain cutoff [] c = refl
  cap-drain cutoff (x ∷ queue) c =
      ground (arith, cap-drain cutoff queue (forget lru x c), cap-forget x c)

  forget-IsCovered :
      (x : Item) (queue : List Item) (c : Cache)
      → IsCovered c (x ∷ queue)
      → IsCovered (forget lru x c) queue
  forget-IsCovered x queue c h k e p =
      let (found, other) = peek-forget lru k x c e p in
      elim (h k e found) [
        | inl same ↦ absurd (
            ground (
              arith,
              same_bytes_iff x.key k,
              ap (λ (i : Item). i.key) same,
              ap (λ (i : Item). i.seq) same,
            ))
        | inr rest ↦ rest
      ]

  drain-IsCovered :
      (cutoff : ℕ) (queue : List Item) (c : Cache)
      → IsCovered c queue
      → IsCovered (drain lru cutoff queue c).1 (drain lru cutoff queue c).0
  unfolding drain
  drain-IsCovered cutoff [] c h = h
  drain-IsCovered cutoff (x ∷ queue) c h = elim (Bool-cases (leb cutoff x.ts)) [
    | inl kept ↦ rw (drain_keeps lru cutoff x queue c kept) h
    | inr gone ↦
        rw (drain_drops lru cutoff x queue c gone)
          (drain-IsCovered cutoff queue (forget lru x c) (forget-IsCovered x queue c h))
  ]

  -- The clean-up keeps the invariant, and leaves nothing older than the horizon.
  pub cleanup-IsSound :
      (t now window : ℕ) (s : ReplayShard lru) (log : Log)
      → t ≤ now
      → IsSound s log t
      → IsSound (cleanup lru now window s) log now
        × IsSince (horizon now window) (cleanup lru now window s).queue
  unfolding cleanup
  cleanup-IsSound t now window s log h v = elim (Bool-cases (window == 0)) [
    | inl none_set ↦ rw none_set (
      record {
        usable = v.usable;
        covered = v.covered;
        sorted = v.sorted;
        past = IsUntil-mono t now s.queue h v.past;
        logged = v.logged;
      },
      IsSince-zero s.queue,
    )
    | inr limited ↦
        let cutoff = cutoff_of now window in
        let kept = drain-IsSorted lru cutoff s.queue s.cache v.sorted in
        rw limited (
          record {
            usable = omega (arith, cap-drain cutoff s.queue s.cache, v.usable);
            covered = drain-IsCovered cutoff s.queue s.cache v.covered;
            sorted = kept.0;
            past =
                drain-IsUntil lru now cutoff s.queue s.cache (IsUntil-mono t now s.queue h v.past);
            logged = λ item p. v.logged item (In-drain lru cutoff item s.queue s.cache p);
          },
          kept.1,
        )
  ]
