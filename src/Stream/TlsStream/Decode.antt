-- ===== src/Stream/TlsStream/Decode.antt =====
-- The reference for the reader: what the whole input holds, decoded at once.
pub mod Records
use v3mtp.Prelude.{
  ℕ, zero, suc, ◌≤◌, ◌≡◌, refl, ap, arith, List, [], ◌∷◌, ◌++◌, map, Option, none, some, Result, ok,
  err, ltb, length, take, drop, length-drop, if◌then◌else◌, Bool-cases, inl, inr,
}
use v3mtp.Stream.Io.{IoError, invalid_data, unexpected_eof}
use v3mtp.Stream.TlsStream.{
  TlsRecordHeader, parse, validate, dispose, Disposition, skip, deliver, stop, refuse,
}

-- A byte of data, an alert, or an error that ends the stream.
pub data Event : Type 0 where
  byte : ℕ → Event
  closed : Event
  broken : IoError → Event

-- What a record and the input after it give, where `next` decodes that input.
module _ (next : List ℕ → List Event) where
  abbrev pub of_record : Disposition → List ℕ → List ℕ → List Event
  of_record skip payload xs = next xs
  of_record deliver payload xs = map byte payload ++ next xs
  of_record stop payload xs = closed ∷ next xs
  of_record (refuse e) payload xs = broken e ∷ []

  abbrev pub of_body : ℕ → ℕ → List ℕ → List Event
  of_body ty len xs =
      if ltb (length xs) len
      then broken unexpected_eof ∷ []
      else of_record (dispose ty (take len xs)) (take len xs) (drop len xs)

  abbrev pub of_valid : TlsRecordHeader → Result IoError (Unit {0}) → List ℕ → List Event
  of_valid h (err e) xs = broken e ∷ []
  of_valid h (ok tt) xs = of_body h.record_type h.length xs

  abbrev pub of_header : Option TlsRecordHeader → List ℕ → List Event
  of_header none xs = broken invalid_data ∷ []
  of_header (some h) xs = of_valid h (validate h) xs

  abbrev pub of_input : List ℕ → List Event
  of_input [] = []
  of_input (x ∷ xs) =
      if ltb (length (x ∷ xs)) 5
      then broken unexpected_eof ∷ []
      else of_header (parse (take 5 (x ∷ xs))) (drop 5 (x ∷ xs))

-- Each record takes bytes, so their number is fuel enough.
unfoldable pub decode : ℕ → List ℕ → List Event
decode zero xs = []
decode (suc fuel) xs = of_input (decode fuel) xs

abbrev pub events : List ℕ → List Event
events xs = decode (length xs) xs

-- `decode` on the inputs of at most `n` bytes.
abbrev pub Agree : ℕ → (List ℕ → List Event) → (List ℕ → List Event) → Type 0
Agree n f g = (xs : List ℕ) → length xs ≤ n → f xs ≡ g xs

of_record-Agree :
    (n : ℕ) (f g : List ℕ → List Event) (d : Disposition) (payload xs : List ℕ)
    → Agree n f g
    → length xs ≤ n
    → of_record f d payload xs ≡ of_record g d payload xs
of_record-Agree n f g skip payload xs same h = same xs h
of_record-Agree n f g deliver payload xs same h = ap (λ ys. map byte payload ++ ys) (same xs h)
of_record-Agree n f g stop payload xs same h = ap (λ ys. closed ∷ ys) (same xs h)
of_record-Agree n f g (refuse e) payload xs same h = refl

pub of_body-Agree :
    (n : ℕ) (f g : List ℕ → List Event) (ty len : ℕ) (xs : List ℕ)
    → Agree n f g
    → length xs ≤ n
    → of_body f ty len xs ≡ of_body g ty len xs
of_body-Agree n f g ty len xs same h = elim (Bool-cases (ltb (length xs) len)) [
  | inl short ↦ rw short refl
  | inr enough ↦ rw enough (
      of_record-Agree n f g (dispose ty (take len xs)) (take len xs) (drop len xs) same
        (omega (arith, length-drop len xs)))
]

of_valid-Agree :
    (n : ℕ) (f g : List ℕ → List Event) (h : TlsRecordHeader) (v : Result IoError (Unit {0}))
    (xs : List ℕ)
    → Agree n f g
    → length xs ≤ n
    → of_valid f h v xs ≡ of_valid g h v xs
of_valid-Agree n f g h (err e) xs same k = refl
of_valid-Agree n f g h (ok tt) xs same k = of_body-Agree n f g h.record_type h.length xs same k

of_header-Agree :
    (n : ℕ) (f g : List ℕ → List Event) (h : Option TlsRecordHeader) (xs : List ℕ)
    → Agree n f g
    → length xs ≤ n
    → of_header f h xs ≡ of_header g h xs
of_header-Agree n f g none xs same k = refl
of_header-Agree n f g (some h) xs same k = of_valid-Agree n f g h (validate h) xs same k

of_input-Agree :
    (n : ℕ) (f g : List ℕ → List Event) (xs : List ℕ)
    → Agree n f g
    → length xs ≤ suc n
    → of_input f xs ≡ of_input g xs
of_input-Agree n f g [] same h = refl
of_input-Agree n f g (x ∷ xs) same h = elim (Bool-cases (ltb (length (x ∷ xs)) 5)) [
  | inl short ↦ rw short refl
  | inr enough ↦ rw enough (
      of_header-Agree n f g (parse (take 5 (x ∷ xs))) (drop 5 (x ∷ xs)) same
        (omega (arith, length-drop 5 (x ∷ xs))))
]

decode-Agree : (n m k : ℕ) → k ≤ n → k ≤ m → Agree k (decode n) (decode m)
unfolding decode
decode-Agree zero zero k h l xs small = refl
decode-Agree zero (suc m) k h l [] small = refl
decode-Agree zero (suc m) k h l (x ∷ xs) small = absurd (omega arith)
decode-Agree (suc n) zero k h l [] small = refl
decode-Agree (suc n) zero k h l (x ∷ xs) small = absurd (omega arith)
decode-Agree (suc n) (suc m) zero h l [] small = refl
decode-Agree (suc n) (suc m) zero h l (x ∷ xs) small = absurd (omega arith)
decode-Agree (suc n) (suc m) (suc k) h l xs small =
    of_input-Agree k (decode n) (decode m) xs (decode-Agree n m k (omega arith) (omega arith)) small

events-Agree : (n : ℕ) → Agree n (decode n) events
events-Agree n xs h = decode-Agree n (length xs) (length xs) h (omega arith) xs (omega arith)

-- One record at a time.
pub events-of_input : (xs : List ℕ) → events xs ≡ of_input events xs
unfolding decode
events-of_input [] = refl
events-of_input (x ∷ xs) =
    of_input-Agree (length xs) (decode (length xs)) events (x ∷ xs) (events-Agree (length xs))
      (omega arith)
