-- ===== src/Stream/State/Yield.antt =====
-- `YieldBuffer` of src/stream/state.rs.
use v3mtp.Prelude.{
  ℕ, ◌+◌, ◌-◌, ◌≡◌, sym, ap, ◌∙◌, arith, min, Bool, List, [], ◌++◌, leb, length, take, drop,
  drop-drop, take-append-drop, ◌<◌, ◌≤◌, length-take, length-drop,
}

pub record YieldBuffer : Type 0 where
  pub bytes : List ℕ
  pub position : ℕ

abbrev pub new : List ℕ → YieldBuffer
new bytes = record { bytes = bytes; position = 0 }

abbrev pub is_empty : YieldBuffer → Bool
is_empty y = leb (length y.bytes) y.position

abbrev pub remaining : YieldBuffer → ℕ
remaining y = length y.bytes - y.position

abbrev pub as_slice : YieldBuffer → List ℕ
as_slice y = drop y.position y.bytes

-- What a destination of `n` bytes gets, and the buffer after it.
unfoldable pub copy_to : ℕ → YieldBuffer → List ℕ × YieldBuffer
copy_to n y =
    let copied = take (min (length (as_slice y)) n) (as_slice y) in
    (copied, record y { position = y.position + length copied })

-- What is copied comes off the front.
pub as_slice-copy_to :
    (n : ℕ) (y : YieldBuffer) → as_slice y ≡ (copy_to n y).0 ++ as_slice (copy_to n y).1
unfolding copy_to
as_slice-copy_to n y =
    let copied = take (min (length (as_slice y)) n) (as_slice y) in
    let k : length copied ≡ min (length (as_slice y)) n =
      omega (arith, length-take (min (length (as_slice y)) n) (as_slice y)) in
    sym (take-append-drop (min (length (as_slice y)) n) (as_slice y))
    ∙ ap (λ xs. copied ++ xs)
        (ap (λ m. drop m (as_slice y)) (sym k) ∙ sym (drop-drop y.position (length copied) y.bytes))

pub copy_to_some :
    (n : ℕ) (y : YieldBuffer) → y.position < length y.bytes → (copy_to n y).0 ≡ [] → n ≡ 0
unfolding copy_to
copy_to_some n y some_left e = omega (
  arith,
  some_left,
  ap length e,
  length-take (min (length (as_slice y)) n) (as_slice y),
  length-drop y.position y.bytes,
)

pub length-copy_to : (n : ℕ) (y : YieldBuffer) → length (copy_to n y).0 ≤ n
unfolding copy_to
length-copy_to n y = omega (arith, length-take (min (length (as_slice y)) n) (as_slice y))
