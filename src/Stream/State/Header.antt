-- ===== src/Stream/State/Header.antt =====
-- `HeaderBuffer<N>` of src/stream/state.rs; `N` is the length of its array.
use v3mtp.Prelude.{
  ℕ, ◌+◌, ◌-◌, ◌≤◌, ◌≡◌, sym, ap, ◌∙◌, arith, min, Bool, List, ◌++◌, append_assoc, leb, length,
  length-take, length-append, length-drop, take, drop, replicate, take-length-append,
}

pub record HeaderBuffer : Type 0 where
  pub bytes : List ℕ
  pub filled : ℕ

unfoldable pub new : ℕ → HeaderBuffer
new n = record { bytes = replicate n 0; filled = 0 }

-- The reader writes `got` into `unfilled_mut`.
abbrev pub write_unfilled : List ℕ → HeaderBuffer → List ℕ
write_unfilled got h = take h.filled h.bytes ++ (got ++ drop (h.filled + length got) h.bytes)

-- `advance` by what was read.
unfoldable pub receive : List ℕ → HeaderBuffer → HeaderBuffer
receive got h = record {
  bytes = write_unfilled got h;
  filled = min (h.filled + length got) (length h.bytes);
}

abbrev pub is_complete : HeaderBuffer → Bool
is_complete h = leb (length h.bytes) h.filled

abbrev pub remaining : HeaderBuffer → ℕ
remaining h = length h.bytes - h.filled

abbrev pub as_slice : HeaderBuffer → List ℕ
as_slice h = take h.filled h.bytes

pub length-receive :
    (got : List ℕ) (h : HeaderBuffer)
    → h.filled + length got ≤ length h.bytes
    → length (receive got h).bytes ≡ length h.bytes
unfolding receive
length-receive got h fits = omega (
  arith,
  length-append (take h.filled h.bytes) (got ++ drop (h.filled + length got) h.bytes),
  length-append got (drop (h.filled + length got) h.bytes),
  length-take h.filled h.bytes,
  length-drop (h.filled + length got) h.bytes,
)

pub filled-receive :
    (got : List ℕ) (h : HeaderBuffer)
    → h.filled + length got ≤ length h.bytes
    → (receive got h).filled ≡ h.filled + length got
unfolding receive
filled-receive got h fits = omega arith

pub as_slice-receive :
    (got : List ℕ) (h : HeaderBuffer)
    → h.filled + length got ≤ length h.bytes
    → as_slice (receive got h) ≡ as_slice h ++ got
unfolding receive
as_slice-receive got h fits =
    let kept = take h.filled h.bytes in
    let rest = drop (h.filled + length got) h.bytes in
    let n : min (h.filled + length got) (length h.bytes) ≡ length (kept ++ got) =
      omega (arith, length-append kept got, length-take h.filled h.bytes) in
    ap (take (min (h.filled + length got) (length h.bytes))) (sym (append_assoc kept got rest))
    ∙ take-length-append (min (h.filled + length got) (length h.bytes)) (kept ++ got) rest n
