-- ===== src/Stats/Replay/Complete/Calls.antt =====
-- The calls on a shard keep it complete.
use v3mtp.Prelude.{
  ℕ, ◌+◌, ◌%◌, ◌^◌, ◌≤◌, ◌<◌, ◌≡◌, inl, inr, sym, ap, ◌∙◌, arith, Bool, true, false, List, [], ◌∷◌,
  ◌=?◌, bytes_eq, same_bytes_iff, Bool-cases, length,
}
use v3mtp.Stats.Replay.{
  Lru, ReplayEntry, Item, ReplayShard, new_shard, cleanup, check, push, add, check_and_add,
}
use v3mtp.Stats.Replay.Shard.{append-In}
use v3mtp.Stats.Replay.Sound.{Log, seen_since, horizon}
use v3mtp.Stats.Replay.Sound.Calls.{peek-put_cases, log_after}
use v3mtp.Stats.Replay.Complete.{IsComplete, cleanup-IsComplete}

module _ (lru : Lru) where
  open lru use {
    Cache, peek, put, pop, touch, len, cap, peek-pop, len-pop, peek-touch, len-touch, cap-touch,
    peek-put_self, peek-put_room, len-put, cap-put, peek-new_cache, len-new_cache, cap-new_cache,
  }

  module _ (owns : List ℕ → Bool) (n : ℕ) where
    -- A key of this shard that was added since the horizon is found.
    pub check_complete :
        (t from now window : ℕ) (key : List ℕ) (s : ReplayShard lru) (log : Log)
        → t ≤ now
        → from ≤ horizon now window
        → IsComplete lru owns n s log from t
        → owns key ≡ true
        → seen_since key (horizon now window) log ≡ true
        → (check lru key now window s).0 ≡ true
    unfolding check
    check_complete t from now window key s log late h v o added =
        let v' = cleanup-IsComplete lru owns n t from now window s log late h v in
        let (e, there, young) = v'.held key (horizon now window) o (omega arith) added in rw there

    touch-IsComplete :
        (from now : ℕ) (key : List ℕ) (s : ReplayShard lru) (log : Log)
        → IsComplete lru owns n s log from now
        → IsComplete lru owns n (record s { cache = touch key s.cache }) log from now
    touch-IsComplete from now key s log v = record {
      dated = v.dated;
      held = λ k at o f added.
          let (e, there, young) = v.held k at o f added in
          (e, peek-touch k key s.cache ∙ there, young);
      matched = λ k e item p. v.matched k e item (sym (peek-touch k key s.cache) ∙ p);
      numbered = v.numbered;
      known = λ k e p. v.known k e (sym (peek-touch k key s.cache) ∙ p);
      counted = v.counted;
      filled = omega (arith, len-touch key s.cache, v.filled);
      sized = cap-touch key s.cache ∙ v.sized;
    }

    dated_cons :
        (key : List ℕ) (now : ℕ) (log : Log)
        → ((k : List ℕ) (at : ℕ) → seen_since k at log ≡ true → at ≤ now)
        → (k : List ℕ) (at : ℕ) → seen_since k at ((key, now) ∷ log) ≡ true
        → at ≤ now
    dated_cons key now log h k at a = ground (arith, h k at)

    -- An addition to another shard.
    pub log-IsComplete :
        (from now : ℕ) (key : List ℕ) (s : ReplayShard lru) (log : Log)
        → owns key ≡ false
        → IsComplete lru owns n s log from now
        → IsComplete lru owns n s ((key, now) ∷ log) from now
    log-IsComplete from now key s log other v = record {
      dated = dated_cons key now log v.dated;
      held = λ k at o f added.
          v.held k at o f
            (ground (arith, added, same_bytes_iff key k, λ (e : key ≡ k). ap owns e, other, o));
      matched = v.matched;
      numbered = v.numbered;
      known = v.known;
      counted = omega (arith, v.counted);
      filled = omega (arith, v.filled);
      sized = v.sized;
    }

    push-IsComplete :
        (from now : ℕ) (key : List ℕ) (s : ReplayShard lru) (log : Log)
        → length log < n
        → n < 2 ^ 64
        → IsComplete lru owns n s log from now
        → IsComplete lru owns n (push lru key now s) ((key, now) ∷ log) from now
    unfolding push
    push-IsComplete from now key s log room word v =
        let seq = (s.seq_counter + 1) % 2 ^ 64 in
        let next : seq ≡ s.seq_counter + 1 = omega (arith, v.counted, room, word) in
        let entry : ReplayEntry = record { seen_at = now; seq = seq } in
        let item : Item = record { ts = now; key = key; seq = seq } in
        let free : len s.cache < cap s.cache = omega (arith, v.filled, v.sized, room) in
        let some_room : 0 < cap s.cache = omega (arith, free) in
        record {
          dated = dated_cons key now log v.dated;
          held = λ k at o f added. elim (Bool-cases (key =? k)) [
            | inl same ↦
                let eq : key ≡ k = (same_bytes_iff key k).0 same in
                (
                  entry,
                  ap (λ j. peek j (put key entry s.cache)) (sym eq)
                      ∙ peek-put_self key entry s.cache some_room,
                  dated_cons key now log v.dated k at added,
                )
            | inr other ↦
                let (e, there, young) = v.held k at o f (ground (arith, added, other)) in
                (e, peek-put_room k key entry s.cache other free ∙ there, young)
          ];
          matched = λ k e i p there q. elim (append-In i s.queue (item ∷ []) there) [
            | inl old ↦ elim (peek-put_cases lru k key entry e s.cache some_room p) [
              | inl (same, made) ↦
                  absurd
                    (omega (arith, v.numbered i old, next, ap (λ (x : ReplayEntry). x.seq) made, q))
              | inr (other, had) ↦ v.matched k e i had old q
            ]
            | inr (inl new) ↦ elim (peek-put_cases lru k key entry e s.cache some_room p) [
              | inl (same, made) ↦
                  ap (λ (x : Item). x.ts) new ∙ ap (λ (x : ReplayEntry). x.seen_at) (sym made)
              | inr (other, had) ↦
                  absurd (omega (arith, v.known k e had, next, ap (λ (x : Item). x.seq) new, q))
            ]
            | inr (inr left) ↦ absurd left
          ];
          numbered = λ i there. elim (append-In i s.queue (item ∷ []) there) [
            | inl old ↦ omega (arith, v.numbered i old, next)
            | inr (inl new) ↦ rw new (omega arith)
            | inr (inr left) ↦ absurd left
          ];
          known = λ k e p. elim (peek-put_cases lru k key entry e s.cache some_room p) [
            | inl (same, made) ↦ rw made (omega arith)
            | inr (other, had) ↦ omega (arith, v.known k e had, next)
          ];
          counted = omega (arith, v.counted, next);
          filled = omega (arith, len-put key entry s.cache, v.filled);
          sized = cap-put key entry s.cache ∙ v.sized;
        }

    pub add-IsComplete :
        (t from now window : ℕ) (key : List ℕ) (s : ReplayShard lru) (log : Log)
        → t ≤ now
        → from ≤ horizon now window
        → length log < n
        → n < 2 ^ 64
        → IsComplete lru owns n s log from t
        → IsComplete lru owns n
            (add lru key now window s)
            ((key, now) ∷ log)
            (horizon now window)
            now
    unfolding add
    add-IsComplete t from now window key s log late h room word v =
        push-IsComplete (horizon now window) now key (cleanup lru now window s) log room word
          (cleanup-IsComplete lru owns n t from now window s log late h v)

    pub check_and_add-IsComplete :
        (t from now window : ℕ) (key : List ℕ) (s : ReplayShard lru) (log : Log)
        → t ≤ now
        → from ≤ horizon now window
        → length log < n
        → n < 2 ^ 64
        → IsComplete lru owns n s log from t
        → IsComplete lru owns n
            (check_and_add lru key now window s).1
            (log_after lru (check_and_add lru key now window s).0 key now log)
            (horizon now window)
            now
    unfolding check_and_add check
    check_and_add-IsComplete t from now window key s log late h room word v =
        let r = check lru key now window s in
        let checked =
          touch-IsComplete (horizon now window) now key (cleanup lru now window s) log
            (cleanup-IsComplete lru owns n t from now window s log late h v) in
        elim (Bool-cases r.0) [
          | inl found ↦ rw found checked
          | inr missing ↦ rw missing (
              add-IsComplete now (horizon now window) now window key r.1 log (omega arith)
                (omega arith) room word checked)
        ]

    pub new_shard-IsComplete : (from now : ℕ) → IsComplete lru owns n (new_shard lru n) [] from now
    unfolding new_shard
    new_shard-IsComplete from now = record {
      dated = λ k at a. cc;
      held = λ k at o f a. cc;
      matched = λ k e i p there q. absurd there;
      numbered = λ i there. absurd there;
      known = λ k e p. absurd (ground (arith, p, peek-new_cache k n));
      counted = omega arith;
      filled = omega (arith, len-new_cache n);
      sized = cap-new_cache n;
    }
