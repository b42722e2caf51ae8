-- ===== src/Stats/Replay/Sound/Calls.antt =====
-- The calls on a shard keep it sound.
use v3mtp.Prelude.{
  ℕ, ◌+◌, ◌%◌, ◌^◌, ◌≤◌, ◌<◌, ◌≡◌, ◌⊎◌, inl, inr, sym, ◌∙◌, arith, Bool, true, false, List, [], ◌∷◌,
  some, ◌=?◌, =?_refl, bytes_eq, same_bytes_iff, Bool-cases, Option-cases,
}
use v3mtp.Stats.Replay.{
  Lru, ReplayEntry, Item, ReplayShard, new_shard, cleanup, check, push, add, check_and_add,
}
use v3mtp.Stats.Replay.Shard.{
  In-append, append-In, IsUntil-mono, In-IsSince, append-IsUntil, append-IsSorted,
}
use v3mtp.Stats.Replay.Sound.{Log, seen_since, horizon, seen_since_mono, IsSound, cleanup-IsSound}

module _ (lru : Lru) where
  open lru use {
    Cache, peek, put, pop, touch, cap, peek-pop, peek-touch, peek-put_self, peek-put_other, cap-pop,
    cap-touch, cap-put, peek-new_cache, cap-new_cache,
  }

  -- A key that is found was added since the horizon.
  pub check_sound :
      (t now window : ℕ) (key : List ℕ) (s : ReplayShard lru) (log : Log)
      → t ≤ now
      → IsSound lru s log t
      → (check lru key now window s).0 ≡ true
      → seen_since key (horizon now window) log ≡ true
  unfolding check
  check_sound t now window key s log h v found =
      let s' = cleanup lru now window s in
      let (v', since) = cleanup-IsSound lru t now window s log h v in
      elim (Option-cases (peek key s'.cache)) [
        | inl missing ↦ absurd (ground (arith, found, missing))
        | inr (e, there) ↦
            let item : Item = record { ts = e.seen_at; key = key; seq = e.seq } in
            let at = v'.covered key e there in
            seen_since_mono key (horizon now window) e.seen_at log
              (In-IsSince (horizon now window) item s'.queue since at) (v'.logged item at)
      ]

  touch-IsSound :
      (now : ℕ) (key : List ℕ) (s : ReplayShard lru) (log : Log)
      → IsSound lru s log now
      → IsSound lru (record s { cache = touch key s.cache }) log now
  touch-IsSound now key s log v = record {
    usable = omega (arith, cap-touch key s.cache, v.usable);
    covered = λ k e p. v.covered k e (sym (peek-touch k key s.cache) ∙ p);
    sorted = v.sorted;
    past = v.past;
    logged = v.logged;
  }

  pub later-IsSound :
      (t now : ℕ) (s : ReplayShard lru) (log : Log)
      → t ≤ now
      → IsSound lru s log t
      → IsSound lru s log now
  later-IsSound t now s log h v = record {
    usable = v.usable;
    covered = v.covered;
    sorted = v.sorted;
    past = IsUntil-mono t now s.queue h v.past;
    logged = v.logged;
  }

  pub log-IsSound :
      (now : ℕ) (s : ReplayShard lru) (log : Log) (key : List ℕ) (at : ℕ)
      → IsSound lru s log now
      → IsSound lru s ((key, at) ∷ log) now
  log-IsSound now s log key at v = record {
    usable = v.usable;
    covered = v.covered;
    sorted = v.sorted;
    past = v.past;
    logged = λ item p. ground (arith, v.logged item p);
  }

  -- What a key has in the cache after `put`: the new entry, or what it had.
  pub peek-put_cases :
      (k key : List ℕ) (entry e : ReplayEntry) (c : Cache)
      → 0 < cap c
      → peek k (put key entry c) ≡ some e
      → ((k ≡ key) × (e ≡ entry)) ⊎ (((key =? k) ≡ false) × (peek k c ≡ some e))
  peek-put_cases k key entry e c room p = elim (Bool-cases (key =? k)) [
    | inl same ↦
        let eq : key ≡ k = (same_bytes_iff key k).0 same in
        inl (sym eq, cc (peek-put_self key entry c room, eq, p))
    | inr other ↦ inr (
      other,
      elim (peek-put_other k key entry c other) [
        | inl kept ↦ sym kept ∙ p
        | inr lost ↦ absurd (ground (arith, lost, p))
      ],
    )
  ]

  pub push-IsSound :
      (now : ℕ) (key : List ℕ) (s : ReplayShard lru) (log : Log)
      → IsSound lru s log now
      → IsSound lru (push lru key now s) ((key, now) ∷ log) now
  unfolding push
  push-IsSound now key s log v =
      let seq = (s.seq_counter + 1) % 2 ^ 64 in
      let entry : ReplayEntry = record { seen_at = now; seq = seq } in
      let item : Item = record { ts = now; key = key; seq = seq } in
      record {
        usable = omega (arith, cap-put key entry s.cache, v.usable);
        covered = λ k e p. elim (peek-put_cases k key entry e s.cache v.usable p) [
          | inl (same, made) ↦
              In-append (record { ts = e.seen_at; key = k; seq = e.seq }) s.queue (item ∷ [])
                (inr (inl (cc (same, made))))
          | inr (other, had) ↦
              In-append (record { ts = e.seen_at; key = k; seq = e.seq }) s.queue (item ∷ [])
                (inl (v.covered k e had))
        ];
        sorted = append-IsSorted item s.queue v.sorted v.past;
        past = append-IsUntil now item s.queue v.past (omega arith);
        logged = λ i p. elim (append-In i s.queue (item ∷ []) p) [
          | inl old ↦ ground (arith, v.logged i old)
          | inr (inl new) ↦ rw new (ground (arith, =?_refl key, same_bytes_iff key key))
          | inr (inr none_left) ↦ absurd none_left
        ];
      }

  pub add-IsSound :
      (t now window : ℕ) (key : List ℕ) (s : ReplayShard lru) (log : Log)
      → t ≤ now
      → IsSound lru s log t
      → IsSound lru (add lru key now window s) ((key, now) ∷ log) now
  unfolding add
  add-IsSound t now window key s log h v =
      push-IsSound now key (cleanup lru now window s) log
        (cleanup-IsSound lru t now window s log h v).0

  pub check-IsSound :
      (t now window : ℕ) (key : List ℕ) (s : ReplayShard lru) (log : Log)
      → t ≤ now
      → IsSound lru s log t
      → IsSound lru (check lru key now window s).1 log now
  unfolding check
  check-IsSound t now window key s log h v =
      touch-IsSound now key (cleanup lru now window s) log
        (cleanup-IsSound lru t now window s log h v).0

  -- The log after a call: a key that was not found has been added.
  abbrev pub log_after : Bool → List ℕ → ℕ → Log → Log
  log_after true key now log = log
  log_after false key now log = (key, now) ∷ log

  pub check_and_add-IsSound :
      (t now window : ℕ) (key : List ℕ) (s : ReplayShard lru) (log : Log)
      → t ≤ now
      → IsSound lru s log t
      → IsSound lru
          (check_and_add lru key now window s).1
          (log_after (check_and_add lru key now window s).0 key now log)
          now
  unfolding check_and_add
  check_and_add-IsSound t now window key s log h v =
      let r = check lru key now window s in
      let checked = check-IsSound t now window key s log h v in
      elim (Bool-cases r.0) [
        | inl found ↦ rw found checked
        | inr missing ↦ rw missing (add-IsSound now now window key r.1 log (omega arith) checked)
      ]

  pub new_shard-IsSound : (n now : ℕ) → 0 < n → IsSound lru (new_shard lru n) [] now
  unfolding new_shard
  new_shard-IsSound n now h = record {
    usable = omega (arith, cap-new_cache n, h);
    covered = λ k e p. absurd (ground (arith, p, peek-new_cache k n));
    sorted = tt;
    past = tt;
    logged = λ item p. absurd p;
  }
