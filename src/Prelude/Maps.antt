-- ===== src/Prelude/Maps.antt =====
-- A `HashMap` as an association list, and a `HashSet` as a list. No operation of the program
-- depends on the order of iteration but where its file says so.
use Prim.Native.Nat.{◌+◌, ◌≤◌}
use mathlib.Core.Path.{◌≡◌, refl}
use mathlib.Core.Bool.{Bool, true, false, ◌||◌}
use mathlib.Core.List.{List, [], ◌∷◌}
use mathlib.Core.Option.{Option, none, some}
use native.Mathlib.Omega.{arith}
use package.v3mtp.Prelude.Tests.{if◌then◌else◌}
use package.v3mtp.Prelude.Lists.{length}
use package.v3mtp.Prelude.Classes.{Eq, ◌=?◌}

module _ {ℓ κ} {K : Type ℓ} {V : Type κ} ⦃e : Eq K⦄ where
  unfoldable pub get : K → List (K × V) → Option V
  get k [] = none
  get k ((j, v) ∷ m) = if j =? k then some v else get k m

  -- Replaces the value of a key that is there, and appends a new key.
  unfoldable pub insert : K → V → List (K × V) → List (K × V)
  insert k v [] = (k, v) ∷ []
  insert k v ((j, w) ∷ m) = if j =? k then (j, v) ∷ m else (j, w) ∷ insert k v m

  unfoldable pub remove : K → List (K × V) → List (K × V)
  remove k [] = []
  remove k ((j, v) ∷ m) = let rest = remove k m in if j =? k then rest else (j, v) ∷ rest

  -- `entry(k).or_insert(v)`, seen as the new map.
  unfoldable pub or_insert : K → V → List (K × V) → List (K × V)
  or_insert k v m = elim (get k m) [ none ↦ insert k v m | some w ↦ m ]

  pub get-insert :
      (j k : K) (v : V) (m : List (K × V))
      → get j (insert k v m) ≡ (if k =? j then some v else get j m)
  unfolding get insert
  get-insert j k v [] = refl
  get-insert j k v ((i, w) ∷ m) =
      ground (arith, e.beq_iff i k, e.beq_iff k j, e.beq_iff i j, get-insert j k v m)

  pub get-remove :
      (j k : K) (m : List (K × V)) → get j (remove k m) ≡ (if k =? j then none else get j m)
  unfolding get remove
  get-remove j k [] = ground arith
  get-remove j k ((i, w) ∷ m) =
      ground (arith, e.beq_iff i k, e.beq_iff k j, e.beq_iff i j, get-remove j k m)

  pub get-insert_self : (k : K) (v : V) (m : List (K × V)) → get k (insert k v m) ≡ some v
  get-insert_self k v m = ground (arith, get-insert k k v m, e.beq_iff k k)

  pub get-or_insert :
      (j k : K) (v : V) (m : List (K × V))
      → get j (or_insert k v m)
        ≡ elim (get j m) [ none ↦ if k =? j then some v else none | some w ↦ some w ]
  unfolding or_insert
  get-or_insert j k v m = ground (arith, get-insert j k v m, e.beq_iff k j, e.beq_iff k k)

module _ {ℓ} {A : Type ℓ} ⦃e : Eq A⦄ where
  unfoldable pub contains : A → List A → Bool
  contains a [] = false
  contains a (x ∷ xs) = (x =? a) || contains a xs

  -- `HashSet::insert`.
  unfoldable pub put : A → List A → List A
  put a xs = if contains a xs then xs else a ∷ xs

  -- `HashSet::remove`.
  unfoldable pub delete : A → List A → List A
  delete a [] = []
  delete a (x ∷ xs) = let rest = delete a xs in if x =? a then rest else x ∷ rest

  -- No element twice: what makes a list stand for a set, and its length for the set's `len`.
  abbrev pub Distinct : List A → Type 0
  Distinct [] = Unit {0}
  Distinct (x ∷ xs) = (contains x xs ≡ false) × Distinct xs

  pub contains-put : (b a : A) (xs : List A) → contains b (put a xs) ≡ (a =? b) || contains b xs
  unfolding put contains
  contains-put b a xs = ground (arith, e.beq_iff a b)

  pub contains-delete :
      (b a : A) (xs : List A) → contains b (delete a xs) ≡ (if a =? b then false else contains b xs)
  unfolding delete contains
  contains-delete b a [] = ground arith
  contains-delete b a (x ∷ xs) =
      ground (arith, e.beq_iff x a, e.beq_iff a b, e.beq_iff x b, contains-delete b a xs)

  pub put-Distinct : (a : A) (xs : List A) → Distinct xs → Distinct (put a xs)
  unfolding put
  put-Distinct a xs d = ground arith

  pub delete-Distinct : (a : A) (xs : List A) → Distinct xs → Distinct (delete a xs)
  unfolding delete
  delete-Distinct a [] d = tt
  delete-Distinct a (x ∷ xs) d = ground (arith, contains-delete x a xs, delete-Distinct a xs d.1)

  pub length-put-le : (a : A) (xs : List A) → length (put a xs) ≤ length xs + 1
  unfolding put
  length-put-le a xs = ground arith

  pub length-put_new :
      (a : A) (xs : List A) → contains a xs ≡ false → length (put a xs) ≡ length xs + 1
  unfolding put
  length-put_new a xs h = ground arith

  pub length-delete-le : (a : A) (xs : List A) → length (delete a xs) ≤ length xs
  unfolding delete
  length-delete-le a [] = omega arith
  length-delete-le a (x ∷ xs) = ground (arith, length-delete-le a xs)

  pub delete_absent : (a : A) (xs : List A) → contains a xs ≡ false → delete a xs ≡ xs
  unfolding contains delete
  delete_absent a [] h = refl
  delete_absent a (x ∷ xs) h = ground (arith, delete_absent a xs)

  pub length-delete_present :
      (a : A) (xs : List A)
      → Distinct xs
      → contains a xs ≡ true
      → length (delete a xs) + 1 ≡ length xs
  unfolding contains delete
  length-delete_present a [] d h = cc
  length-delete_present a (x ∷ xs) d h =
      ground (arith, e.beq_iff x a, length-delete_present a xs d.1, delete_absent a xs)
