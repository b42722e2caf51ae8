-- ===== src/Stream/State/Write.antt =====
-- `WriteBuffer` of src/stream/state.rs.
use v3mtp.Prelude.{
  ℕ, ◌∙◌, ◌+◌, ◌<◌, ◌≤◌, ◌≡◌, refl, arith, Bool, true, false, List, [], ◌++◌, ltb, leb,
  if◌then◌else◌, length, drop, drop-drop, sym, length-drop, Bool-cases, inl, inr, drop-all,
  le→ltb_false, leb_false→lt,
}

pub record WriteBuffer : Type 0 where
  pub buffer : List ℕ
  pub position : ℕ
  pub max_size : ℕ

abbrev pub with_max_size : ℕ → WriteBuffer
with_max_size n = record { buffer = []; position = 0; max_size = n }

abbrev pub is_empty : WriteBuffer → Bool
is_empty w = leb (length w.buffer) w.position

abbrev pub pending : WriteBuffer → List ℕ
pending w = drop w.position w.buffer

-- Whether the data was taken, and the buffer after the call.
unfoldable pub extend : List ℕ → WriteBuffer → Bool × WriteBuffer
extend bytes w =
    if ltb w.max_size (length w.buffer + length bytes)
    then (false, w)
    else (true, record w { buffer = w.buffer ++ bytes })

unfoldable pub advance : ℕ → WriteBuffer → WriteBuffer
advance n w =
    if leb (length w.buffer) (w.position + n)
    then record w { buffer = []; position = 0 }
    else record w { position = w.position + n }

pub is_empty-pending : (w : WriteBuffer) → is_empty w ≡ true → pending w ≡ []
is_empty-pending w h = drop-all w.position w.buffer (ground arith)

pub pending-advance : (n : ℕ) (w : WriteBuffer) → pending (advance n w) ≡ drop n (pending w)
unfolding advance
pending-advance n w = elim (Bool-cases (leb (length w.buffer) (w.position + n))) [
  | inl done ↦ rw done (
      sym
        (sym (drop-drop w.position n w.buffer) ∙ drop-all (w.position + n) w.buffer (ground arith)))
  | inr more ↦ rw more (drop-drop w.position n w.buffer)
]

pub length-pending-advance :
    (n : ℕ) (w : WriteBuffer)
    → is_empty w ≡ false
    → 0 < n
    → length (pending (advance n w)) < length (pending w)
length-pending-advance n w some_left h = rw (pending-advance n w) (
    omega (
      arith,
      length-drop n (pending w),
      length-drop w.position w.buffer,
      leb_false→lt (length w.buffer) w.position some_left,
    ))

pub pending-extend :
    (xs : List ℕ) (n : ℕ) → length xs ≤ n → pending (extend xs (with_max_size n)).1 ≡ xs
unfolding extend
pending-extend xs n fits = rw (le→ltb_false n (0 + length xs) (omega (arith, fits))) refl
