-- ===== src/Stats/Replay/Shard.antt =====
-- The queue of a shard: its order, and what `drain` leaves of the queue and of the cache.
use v3mtp.Prelude.{
  ℕ, ◌≤◌, ◌≡◌, ◌⊎◌, inl, inr, arith, true, false, List, [], ◌∷◌, ◌++◌, some, leb, ◌==◌, ◌&&◌, ◌=?◌,
  bytes_eq, same_bytes_iff, Bool-cases,
}
use v3mtp.Stats.Replay.{Lru, ReplayEntry, Item, forget, drain}

abbrev pub In : Item → List Item → Type 0
In item [] = ⊥
In item (x ∷ xs) = (item ≡ x) ⊎ In item xs

pub In-append : (item : Item) (xs ys : List Item) → In item xs ⊎ In item ys → In item (xs ++ ys)
In-append item [] ys (inl h) = absurd h
In-append item [] ys (inr h) = h
In-append item (x ∷ xs) ys (inl (inl e)) = inl e
In-append item (x ∷ xs) ys (inl (inr h)) = inr (In-append item xs ys (inl h))
In-append item (x ∷ xs) ys (inr h) = inr (In-append item xs ys (inr h))

pub append-In : (item : Item) (xs ys : List Item) → In item (xs ++ ys) → In item xs ⊎ In item ys
append-In item [] ys h = inr h
append-In item (x ∷ xs) ys (inl e) = inl (inl e)
append-In item (x ∷ xs) ys (inr h) = elim (append-In item xs ys h) [
  | inl p ↦ inl (inr p)
  | inr p ↦ inr p
]

-- No element is older than `t`, and none is newer.
abbrev pub IsSince : ℕ → List Item → Type 0
IsSince t [] = Unit {0}
IsSince t (x ∷ xs) = (t ≤ x.ts) × IsSince t xs

abbrev pub IsUntil : ℕ → List Item → Type 0
IsUntil t [] = Unit {0}
IsUntil t (x ∷ xs) = (x.ts ≤ t) × IsUntil t xs

-- Oldest first.
abbrev pub IsSorted : List Item → Type 0
IsSorted [] = Unit {0}
IsSorted (x ∷ xs) = IsSince x.ts xs × IsSorted xs

pub IsSince-mono : (s t : ℕ) (xs : List Item) → s ≤ t → IsSince t xs → IsSince s xs
IsSince-mono s t [] h k = tt
IsSince-mono s t (x ∷ xs) h k = (omega (arith, k.0), IsSince-mono s t xs h k.1)

pub IsUntil-mono : (s t : ℕ) (xs : List Item) → s ≤ t → IsUntil s xs → IsUntil t xs
IsUntil-mono s t [] h k = tt
IsUntil-mono s t (x ∷ xs) h k = (omega (arith, k.0), IsUntil-mono s t xs h k.1)

pub In-IsSince : (t : ℕ) (item : Item) (xs : List Item) → IsSince t xs → In item xs → t ≤ item.ts
In-IsSince t item [] k h = absurd h
In-IsSince t item (x ∷ xs) k (inl e) = rw e k.0
In-IsSince t item (x ∷ xs) k (inr h) = In-IsSince t item xs k.1 h

append-IsSince :
    (t : ℕ) (item : Item) (xs : List Item)
    → IsSince t xs
    → t ≤ item.ts
    → IsSince t (xs ++ (item ∷ []))
append-IsSince t item [] k h = (h, tt)
append-IsSince t item (x ∷ xs) k h = (k.0, append-IsSince t item xs k.1 h)

pub append-IsUntil :
    (t : ℕ) (item : Item) (xs : List Item)
    → IsUntil t xs
    → item.ts ≤ t
    → IsUntil t (xs ++ (item ∷ []))
append-IsUntil t item [] k h = (h, tt)
append-IsUntil t item (x ∷ xs) k h = (k.0, append-IsUntil t item xs k.1 h)

-- A new element, no older than the others, goes to the back.
pub append-IsSorted :
    (item : Item) (xs : List Item) → IsSorted xs → IsUntil item.ts xs → IsSorted (xs ++ (item ∷ []))
append-IsSorted item [] s u = (tt, tt)
append-IsSorted item (x ∷ xs) s u =
    (append-IsSince x.ts item xs s.0 u.0, append-IsSorted item xs s.1 u.1)

module _ (lru : Lru) where
  open lru use {Cache, peek, pop, peek-pop}

  pub drain_keeps :
      (cutoff : ℕ) (x : Item) (queue : List Item) (c : Cache)
      → leb cutoff x.ts ≡ true
      → drain lru cutoff (x ∷ queue) c ≡ (x ∷ queue, c)
  unfolding drain
  drain_keeps cutoff x queue c h = rw (h, drain)

  pub drain_drops :
      (cutoff : ℕ) (x : Item) (queue : List Item) (c : Cache)
      → leb cutoff x.ts ≡ false
      → drain lru cutoff (x ∷ queue) c ≡ drain lru cutoff queue (forget lru x c)
  unfolding drain
  drain_drops cutoff x queue c h = rw (h, drain)

  -- The elements that `drain` leaves were there before.
  pub In-drain :
      (cutoff : ℕ) (item : Item) (queue : List Item) (c : Cache)
      → In item (drain lru cutoff queue c).0
      → In item queue
  unfolding drain
  In-drain cutoff item [] c h = h
  In-drain cutoff item (x ∷ queue) c h = elim (Bool-cases (leb cutoff x.ts)) [
    | inl kept ↦ rw (drain_keeps cutoff x queue c kept) at h
    | inr gone ↦
        inr (
          In-drain cutoff item queue (forget lru x c) (rw (drain_drops cutoff x queue c gone) at h))
  ]

  pub drain-IsUntil :
      (t cutoff : ℕ) (queue : List Item) (c : Cache)
      → IsUntil t queue
      → IsUntil t (drain lru cutoff queue c).0
  unfolding drain
  drain-IsUntil t cutoff [] c u = tt
  drain-IsUntil t cutoff (x ∷ queue) c u = elim (Bool-cases (leb cutoff x.ts)) [
    | inl kept ↦ rw (drain_keeps cutoff x queue c kept) u
    | inr gone ↦
        rw (drain_drops cutoff x queue c gone) (drain-IsUntil t cutoff queue (forget lru x c) u.1)
  ]

  -- What is left of a sorted queue is sorted, and not older than the cutoff.
  pub drain-IsSorted :
      (cutoff : ℕ) (queue : List Item) (c : Cache)
      → IsSorted queue
      → IsSorted (drain lru cutoff queue c).0 × IsSince cutoff (drain lru cutoff queue c).0
  unfolding drain
  drain-IsSorted cutoff [] c s = (tt, tt)
  drain-IsSorted cutoff (x ∷ queue) c s = elim (Bool-cases (leb cutoff x.ts)) [
    | inl kept ↦
        rw (drain_keeps cutoff x queue c kept)
          (s, (ground arith, IsSince-mono cutoff x.ts queue (ground arith) s.0))
    | inr gone ↦
        rw (drain_drops cutoff x queue c gone) (drain-IsSorted cutoff queue (forget lru x c) s.1)
  ]

  pub peek-forget :
      (j : List ℕ) (item : Item) (c : Cache) (e : ReplayEntry)
      → peek j (forget lru item c) ≡ some e
      → (peek j c ≡ some e) × (((item.key =? j) && (e.seq == item.seq)) ≡ false)
  unfolding forget
  peek-forget j item c e h = ground (arith, peek-pop j item.key c, same_bytes_iff item.key j)
