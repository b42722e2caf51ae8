-- ===== src/Stats/Replay/Complete.antt =====
-- A shard that has never been full reports every key that was added within the window.
pub mod Calls
use v3mtp.Prelude.{
  ℕ, ◌+◌, ◌%◌, ◌^◌, ◌≤◌, ◌<◌, ◌≡◌, inl, inr, refl, sym, ap, ◌∙◌, arith, Bool, true, false, ◌&&◌,
  List, [], ◌∷◌, some, leb, ◌==◌, ◌=?◌, bytes_eq, same_bytes_iff, Bool-cases, length,
}
use v3mtp.Stats.Replay.{
  Lru, ReplayEntry, Item, ReplayShard, new_shard, forget, drain, cutoff_of, cleanup, check, push,
  add, check_and_add,
}
use v3mtp.Stats.Replay.Shard.{In, append-In, drain_keeps, drain_drops, In-drain, peek-forget}
use v3mtp.Stats.Replay.Sound.{Log, seen_since, horizon, cap-drain}
use v3mtp.Stats.Replay.Sound.Calls.{peek-put_cases, log_after}

module _ (lru : Lru) where
  open lru use {
    Cache, peek, put, pop, touch, len, cap, peek-pop, len-pop, peek-touch, len-touch, cap-touch,
    peek-put_self, peek-put_room, len-put, cap-put, peek-new_cache, len-new_cache, cap-new_cache,
  }

  -- An element made with the sequence number of an entry was made with the entry.
  abbrev pub IsMatched : Cache → List Item → Type 0
  IsMatched c queue =
      (k : List ℕ) (e : ReplayEntry) (item : Item)
      → peek k c ≡ some e
      → In item queue
      → item.seq ≡ e.seq
      → item.ts ≡ e.seen_at

  -- The key has an entry that is at least as young as `at`.
  abbrev pub Holds : Cache → List ℕ → ℕ → Type 0
  Holds c k at = (e : ReplayEntry) × (peek k c ≡ some e) × (at ≤ e.seen_at)

  -- `owns` tells the keys of this shard. The log bounds what the shard holds, since each addition
  -- makes one entry and one number.
  pub record IsComplete (owns : List ℕ → Bool) (n : ℕ) (s : ReplayShard lru) (log : Log)
      (from now : ℕ) : Type 0 where
    pub dated : (k : List ℕ) (at : ℕ) → seen_since k at log ≡ true → at ≤ now
    pub held :
        (k : List ℕ) (at : ℕ)
        → owns k ≡ true
        → from ≤ at
        → seen_since k at log ≡ true
        → Holds s.cache k at
    pub matched : IsMatched s.cache s.queue
    pub numbered : (item : Item) → In item s.queue → item.seq ≤ s.seq_counter
    pub known : (k : List ℕ) (e : ReplayEntry) → peek k s.cache ≡ some e → e.seq ≤ s.seq_counter
    pub counted : s.seq_counter ≤ length log
    pub filled : len s.cache ≤ length log
    pub sized : cap s.cache ≡ n

  len-forget : (item : Item) (c : Cache) → len (forget lru item c) ≤ len c
  unfolding forget
  len-forget item c = ground (arith, len-pop item.key c)

  len-drain :
      (cutoff : ℕ) (queue : List Item) (c : Cache) → len (drain lru cutoff queue c).1 ≤ len c
  unfolding drain
  len-drain cutoff [] c = omega arith
  len-drain cutoff (x ∷ queue) c =
      ground (arith, len-drain cutoff queue (forget lru x c), len-forget x c)

  -- An entry survives where the element does not carry its number.
  forget_keeps :
      (k : List ℕ) (item : Item) (c : Cache) (e : ReplayEntry)
      → peek k c ≡ some e
      → ((item.key =? k) && (e.seq == item.seq)) ≡ false
      → peek k (forget lru item c) ≡ some e
  unfolding forget
  forget_keeps k item c e p q = ground (arith, peek-pop k item.key c, same_bytes_iff item.key k)

  forget-IsMatched :
      (x : Item) (queue : List Item) (c : Cache)
      → IsMatched c (x ∷ queue)
      → IsMatched (forget lru x c) queue
  forget-IsMatched x queue c m k e item p i = m k e item (peek-forget lru k x c e p).0 (inr i)

  -- `drain` forgets no entry as young as the cutoff.
  drain_keeps_young :
      (cutoff : ℕ) (queue : List Item) (c : Cache) (k : List ℕ) (e : ReplayEntry)
      → IsMatched c queue
      → cutoff ≤ e.seen_at
      → peek k c ≡ some e
      → peek k (drain lru cutoff queue c).1 ≡ some e
  unfolding drain
  drain_keeps_young cutoff [] c k e m h p = p
  drain_keeps_young cutoff (x ∷ queue) c k e m h p = elim (Bool-cases (leb cutoff x.ts)) [
    | inl kept ↦ rw (drain_keeps lru cutoff x queue c kept) p
    | inr gone ↦ rw (drain_drops lru cutoff x queue c gone) (
        drain_keeps_young cutoff queue (forget lru x c) k e (forget-IsMatched x queue c m) h
          (forget_keeps k x c e p (ground (arith, gone, m k e x p (inl refl)))))
  ]

  drain-peek :
      (cutoff : ℕ) (queue : List Item) (c : Cache) (k : List ℕ) (e : ReplayEntry)
      → peek k (drain lru cutoff queue c).1 ≡ some e
      → peek k c ≡ some e
  unfolding drain
  drain-peek cutoff [] c k e p = p
  drain-peek cutoff (x ∷ queue) c k e p = elim (Bool-cases (leb cutoff x.ts)) [
    | inl kept ↦ rw (drain_keeps lru cutoff x queue c kept) at p
    | inr gone ↦
        (peek-forget lru k x c e (
          drain-peek cutoff queue (forget lru x c) k e
            (rw (drain_drops lru cutoff x queue c gone) at p))).0
  ]

  module _ (owns : List ℕ → Bool) (n : ℕ) where
    pub cleanup-IsComplete :
        (t from now window : ℕ) (s : ReplayShard lru) (log : Log)
        → t ≤ now
        → from ≤ horizon now window
        → IsComplete owns n s log from t
        → IsComplete owns n (cleanup lru now window s) log (horizon now window) now
    unfolding cleanup
    cleanup-IsComplete t from now window s log late h v = elim (Bool-cases (window == 0)) [
      | inl none_set ↦ rw none_set (record {
        dated = λ k at a. omega (arith, v.dated k at a, late);
        held = λ k at o f. v.held k at o (ground (arith, f, h, none_set));
        matched = v.matched;
        numbered = v.numbered;
        known = v.known;
        counted = v.counted;
        filled = v.filled;
        sized = v.sized;
      })
      | inr limited ↦
          let cutoff = cutoff_of now window in
          rw limited (record {
            dated = λ k at a. omega (arith, v.dated k at a, late);
            held = λ k at o f added.
                let (e, there, young) = v.held k at o (ground (arith, f, h, limited)) added in
                (
                  e,
                  drain_keeps_young cutoff s.queue s.cache k e v.matched (omega (arith, f, young))
                      there,
                  young,
                );
            matched = λ k e item p i.
                v.matched k e item (drain-peek cutoff s.queue s.cache k e p)
                  (In-drain lru cutoff item s.queue s.cache i);
            numbered = λ item i. v.numbered item (In-drain lru cutoff item s.queue s.cache i);
            known = λ k e p. v.known k e (drain-peek cutoff s.queue s.cache k e p);
            counted = v.counted;
            filled = omega (arith, len-drain cutoff s.queue s.cache, v.filled);
            sized = cap-drain lru cutoff s.queue s.cache ∙ v.sized;
          })
    ]
