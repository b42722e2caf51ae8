-- ===== src/Stats/Replay/Sample.antt =====
-- A cache that meets `Lru`: a list, newest entry first, cut at its capacity.
use v3mtp.Prelude.{
  ℕ, zero, suc, ◌+◌, ◌≤◌, ◌<◌, ◌≡◌, ◌⊎◌, inl, inr, refl, ap, ◌∙◌, ◌-◌, arith, true, false, List, [],
  ◌∷◌, Option, none, some, ◌=?◌, bytes_eq, same_bytes_iff, length, take, Bool-cases,
}
use v3mtp.Prelude.Maps
use v3mtp.Stats.Replay.{Lru, ReplayEntry}

abbrev Entries : Type 0
Entries = List (List ℕ × ReplayEntry)

pub record Cache : Type 0 where
  pub entries : Entries
  pub limit : ℕ

length-remove-le : (k : List ℕ) (m : Entries) → length (Maps.remove k m) ≤ length m
unfolding Maps.remove
length-remove-le k [] = omega arith
length-remove-le k ((j, v) ∷ m) = ground (arith, length-remove-le k m)

take_all {ℓ} : {A : Type ℓ} (n : ℕ) (xs : List A) → length xs ≤ n → take n xs ≡ xs
take_all zero [] h = refl
take_all zero (x ∷ xs) h = absurd (omega arith)
take_all (suc n) [] h = refl
take_all (suc n) (x ∷ xs) h = ap (◌∷◌ x) (take_all n xs (omega arith))

length-take-le {ℓ} : {A : Type ℓ} (n : ℕ) (xs : List A) → length (take n xs) ≤ length xs
length-take-le zero xs = omega arith
length-take-le (suc n) [] = omega arith
length-take-le (suc n) (x ∷ xs) = omega (arith, length-take-le n xs)

get-take :
    (j : List ℕ) (n : ℕ) (m : Entries)
    → (Maps.get j (take n m) ≡ Maps.get j m) ⊎ (Maps.get j (take n m) ≡ none)
unfolding Maps.get
get-take j zero m = inr refl
get-take j (suc n) [] = inl refl
get-take j (suc n) ((k, v) ∷ m) = elim (Bool-cases (k =? j)) [
  | inl same ↦ inl (rw same)
  | inr apart ↦ rw apart (get-take j n m)
]

abbrev new_cache : ℕ → Cache
new_cache n = record { entries = []; limit = n }

abbrev peek : List ℕ → Cache → Option ReplayEntry
peek k c = Maps.get k c.entries

abbrev put : List ℕ → ReplayEntry → Cache → Cache
put k e c = record c { entries = take c.limit ((k, e) ∷ Maps.remove k c.entries) }

pub peek-put_self :
    (k : List ℕ) (e : ReplayEntry) (c : Cache) → 0 < c.limit → peek k (put k e c) ≡ some e
unfolding Maps.get
peek-put_self k e c h =
    let n : c.limit ≡ suc (c.limit - 1) = omega arith in
    let same : (k =? k) ≡ true = (same_bytes_iff k k).1 refl in
    ap (λ m. Maps.get k (take m ((k, e) ∷ Maps.remove k c.entries))) n ∙ rw same

get_new :
    (j k : List ℕ) (e : ReplayEntry) (c : Cache)
    → (k =? j) ≡ false
    → Maps.get j ((k, e) ∷ Maps.remove k c.entries) ≡ peek j c
unfolding Maps.get
get_new j k e c h = ground (arith, Maps.get-remove j k c.entries)

pub peek-put_other :
    (j k : List ℕ) (e : ReplayEntry) (c : Cache)
    → (k =? j) ≡ false
    → (peek j (put k e c) ≡ peek j c) ⊎ (peek j (put k e c) ≡ none)
peek-put_other j k e c h = elim (get-take j c.limit ((k, e) ∷ Maps.remove k c.entries)) [
  | inl kept ↦ inl (kept ∙ get_new j k e c h)
  | inr lost ↦ inr lost
]

pub peek-put_room :
    (j k : List ℕ) (e : ReplayEntry) (c : Cache)
    → (k =? j) ≡ false
    → length c.entries < c.limit
    → peek j (put k e c) ≡ peek j c
peek-put_room j k e c h room =
    ap (Maps.get j) (
      take_all c.limit ((k, e) ∷ Maps.remove k c.entries)
        (omega (arith, length-remove-le k c.entries)))
    ∙ get_new j k e c h

pub length-put-le :
    (k : List ℕ) (e : ReplayEntry) (c : Cache) → length (put k e c).entries ≤ length c.entries + 1
length-put-le k e c =
    omega (
      arith,
      length-take-le c.limit ((k, e) ∷ Maps.remove k c.entries),
      length-remove-le k c.entries,
    )

pub sample_lru : Lru
sample_lru = record {
  Cache = Cache;
  new_cache = new_cache;
  peek = peek;
  touch = λ k c. c;
  put = put;
  pop = λ k c. record c { entries = Maps.remove k c.entries };
  len = λ c. length c.entries;
  cap = λ c. c.limit;
  peek-new_cache = λ k n. unfold Maps.get in refl;
  len-new_cache = λ n. refl;
  cap-new_cache = λ n. refl;
  peek-touch = λ j k c. refl;
  len-touch = λ k c. refl;
  cap-touch = λ k c. refl;
  peek-pop = λ j k c. Maps.get-remove j k c.entries;
  len-pop = λ k c. length-remove-le k c.entries;
  cap-pop = λ k c. refl;
  peek-put_self = peek-put_self;
  peek-put_other = peek-put_other;
  peek-put_room = peek-put_room;
  len-put = length-put-le;
  cap-put = λ k e c. refl;
}
