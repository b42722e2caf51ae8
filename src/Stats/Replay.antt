-- ===== src/Stats/Replay.antt =====
-- `ReplayShard` and `ReplayChecker` of src/stats/mod.rs. The cache of the crate `lru` is the
-- parameter `Lru`, and the hasher of the standard library an argument. An instant is a number of
-- ticks since the earliest one, so `checked_sub` fails where it would pass below 0. The counters of
-- checks, hits and additions are printed only, and left out.
pub mod Shard
pub mod Sound
pub mod Complete
pub mod Checker
pub mod Exact
pub mod Later
pub mod Sample
mod Examples
use v3mtp.Prelude.{
  ℕ, zero, suc, ◌+◌, ◌-◌, ◌%◌, ◌/◌, ◌^◌, ◌≤◌, ◌<◌, max, ◌≡◌, ◌≢◌, ◌⊎◌, Bool, true, false, List, [],
  ◌∷◌, ◌++◌, Option, none, some, leb, ◌==◌, ◌=?◌, bytes_eq, if◌then◌else◌, get_or, set, replicate,
}

pub record ReplayEntry : Type 0 where
  pub seen_at : ℕ
  pub seq : ℕ

-- What the checker relies on: `put` stores its entry, and may push out another key, but not while
-- there is room; `get` and `pop` find what is stored.
pub record Lru : Type 1 where
  pub Cache : Type 0
  pub new_cache : ℕ → Cache
  pub peek : List ℕ → Cache → Option ReplayEntry
  -- The cache after `get`.
  pub touch : List ℕ → Cache → Cache
  pub put : List ℕ → ReplayEntry → Cache → Cache
  pub pop : List ℕ → Cache → Cache
  pub len : Cache → ℕ
  pub cap : Cache → ℕ
  pub peek-new_cache : (k : List ℕ) (n : ℕ) → peek k (new_cache n) ≡ none
  pub len-new_cache : (n : ℕ) → len (new_cache n) ≡ 0
  pub cap-new_cache : (n : ℕ) → cap (new_cache n) ≡ n
  pub peek-touch : (j k : List ℕ) (c : Cache) → peek j (touch k c) ≡ peek j c
  pub len-touch : (k : List ℕ) (c : Cache) → len (touch k c) ≡ len c
  pub cap-touch : (k : List ℕ) (c : Cache) → cap (touch k c) ≡ cap c
  pub peek-pop : (j k : List ℕ) (c : Cache) → peek j (pop k c) ≡ (if k =? j then none else peek j c)
  pub len-pop : (k : List ℕ) (c : Cache) → len (pop k c) ≤ len c
  pub cap-pop : (k : List ℕ) (c : Cache) → cap (pop k c) ≡ cap c
  pub peek-put_self :
      (k : List ℕ) (e : ReplayEntry) (c : Cache) → 0 < cap c → peek k (put k e c) ≡ some e
  pub peek-put_other :
      (j k : List ℕ) (e : ReplayEntry) (c : Cache)
      → (k =? j) ≡ false
      → (peek j (put k e c) ≡ peek j c) ⊎ (peek j (put k e c) ≡ none)
  pub peek-put_room :
      (j k : List ℕ) (e : ReplayEntry) (c : Cache)
      → (k =? j) ≡ false
      → len c < cap c
      → peek j (put k e c) ≡ peek j c
  pub len-put : (k : List ℕ) (e : ReplayEntry) (c : Cache) → len (put k e c) ≤ len c + 1
  pub cap-put : (k : List ℕ) (e : ReplayEntry) (c : Cache) → cap (put k e c) ≡ cap c

-- An element of the queue, `(Instant, Box<[u8]>, u64)`.
pub record Item : Type 0 where
  pub ts : ℕ
  pub key : List ℕ
  pub seq : ℕ

unfoldable pub cutoff_of : ℕ → ℕ → ℕ
cutoff_of now window = if leb window now then now - window else now

abbrev pub num_shards : ℕ
num_shards = 64

module _ (lru : Lru) where
  open lru use {Cache, new_cache, peek, touch, put, pop, cap}

  pub record ReplayShard : Type 0 where
    pub cache : Cache
    pub queue : List Item
    pub seq_counter : ℕ

  unfoldable pub new_shard : ℕ → ReplayShard
  new_shard n = record { cache = new_cache n; queue = []; seq_counter = 0 }

  -- `cache.pop` where the entry is the one that the queue element was made with.
  unfoldable pub forget : Item → Cache → Cache
  forget item c = elim (peek item.key c) [
    | none ↦ c
    | some entry ↦ if entry.seq == item.seq then pop item.key c else c
  ]

  -- The loop of `cleanup`.
  unfoldable pub drain : ℕ → List Item → Cache → List Item × Cache
  drain cutoff [] c = ([], c)
  drain cutoff (item ∷ queue) c = elim (leb cutoff item.ts) [
    | true ↦ (item ∷ queue, c)
    | false ↦ drain cutoff queue (forget item c)
  ]

  unfoldable pub cleanup : ℕ → ℕ → ReplayShard → ReplayShard
  cleanup now window s =
      let r = drain (cutoff_of now window) s.queue s.cache in
      if window == 0 then s else record s { queue = r.0; cache = r.1 }

  abbrev pub is_some : Option ReplayEntry → Bool
  is_some none = false
  is_some (some e) = true

  unfoldable pub check : List ℕ → ℕ → ℕ → ReplayShard → Bool × ReplayShard
  check key now window s =
      let s' = cleanup now window s in
      (is_some (peek key s'.cache), record s' { cache = touch key s'.cache })

  -- From `next_seq` on.
  unfoldable pub push : List ℕ → ℕ → ReplayShard → ReplayShard
  push key now s =
      let seq = (s.seq_counter + 1) % 2 ^ 64 in
      record {
        cache = put key (record { seen_at = now; seq = seq }) s.cache;
        queue = s.queue ++ (record { ts = now; key = key; seq = seq } ∷ []);
        seq_counter = seq;
      }

  unfoldable pub add : List ℕ → ℕ → ℕ → ReplayShard → ReplayShard
  add key now window s = push key now (cleanup now window s)

  -- What `check_and_add_internal` does to the shard of its key.
  unfoldable pub check_and_add : List ℕ → ℕ → ℕ → ReplayShard → Bool × ReplayShard
  check_and_add key now window s =
      let r = check key now window s in if r.0 then r else (false, add key now window r.1)

  pub record ReplayChecker : Type 0 where
    pub shards : List ReplayShard
    pub window : ℕ

  unfoldable pub new : ℕ → ℕ → ReplayChecker
  new total_capacity window = record {
    shards = replicate num_shards (new_shard (max (total_capacity / num_shards) 1));
    window = window;
  }

  -- The shards have 64 elements, so the index is in range and the default is not read.
  abbrev pub shard_at : ReplayChecker → ℕ → ReplayShard
  shard_at r i = get_or r.shards i (new_shard 1)

  module _ (hash : List ℕ → ℕ) where
    -- `finish() & shard_mask`, where the mask is 63.
    unfoldable pub get_shard_idx : List ℕ → ℕ
    get_shard_idx key = hash key % num_shards

    unfoldable pub check_and_add_internal : List ℕ → ℕ → ReplayChecker → Bool × ReplayChecker
    check_and_add_internal key now r =
        let i = get_shard_idx key in
        let (found, shard) = check_and_add key now r.window (shard_at r i) in
        (found, record r { shards = set r.shards i shard })

    unfoldable pub add_only : List ℕ → ℕ → ReplayChecker → ReplayChecker
    add_only key now r =
        let i = get_shard_idx key in
        record r { shards = set r.shards i (add key now r.window (shard_at r i)) }

  -- One round of `run_periodic_cleanup`: every shard in turn.
  unfoldable pub cleanup_all : ℕ → ℕ → List ReplayShard → List ReplayShard
  cleanup_all now window [] = []
  cleanup_all now window (s ∷ shards) = cleanup now window s ∷ cleanup_all now window shards
