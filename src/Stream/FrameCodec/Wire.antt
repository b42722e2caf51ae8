-- ===== src/Stream/FrameCodec/Wire.antt =====
-- What the three codecs of src/stream/frame_codec.rs share: the error values, the result of a
-- decoder call with the buffer it leaves, and the four-byte header.
use v3mtp.Prelude.{
  ℕ, zero, suc, ◌+◌, ◌≤◌, ◌<◌, ◌≡◌, refl, List, [], ◌∷◌, ◌++◌, Option, none, some, Result, ok, err,
  arith, length, take, drop, byte_at, from_le_bytes, take-append_le, drop-append_le,
}
use v3mtp.Stream.Frame.{Frame, with_meta, FrameMeta}

-- One constructor for each message that the codecs raise as `InvalidData` or `InvalidInput`.
pub data IoError : Type 0 where
  frame_length_overflow : IoError
  frame_too_large : ℕ → ℕ → IoError
  abridged_not_aligned : ℕ → IoError
  abridged_too_large : ℕ → IoError
  invalid_secure_frame_length : ℕ → IoError
  secure_not_aligned : ℕ → IoError

abbrev pub IoResult : Type 0 → Type 0
IoResult A = Result IoError A

-- `Ok(None)` is `ok none`: more input is needed. The second part is `src` after the call.
abbrev pub Decoded : Type 0
Decoded = IoResult (Option Frame) × List ℕ

-- The second part is `dst` after the call.
abbrev pub Encoded : Type 0
Encoded = IoResult (Unit {0}) × List ℕ

-- A decoder call that has decided, by a frame or an error, decides the same with more input behind.
abbrev pub Extends : Decoded → List ℕ → Decoded → Type 0
Extends (ok none, rest) more later = Unit {0}
Extends (ok (some f), rest) more later = later ≡ (ok (some f), rest ++ more)
Extends (err e, rest) more later = later ≡ (err e, rest ++ more)

-- What holds of every call on `src`: it takes input only for a frame, which fits `max_size`,
-- and then at least one byte more than the payload has.
abbrev pub Takes : List ℕ → ℕ → Decoded → Type 0
Takes src max_size (ok none, rest) = rest ≡ src
Takes src max_size (ok (some f), rest) =
    (length f.payload ≤ max_size) × (length rest + length f.payload < length src)
Takes src max_size (err e, rest) = rest ≡ src

-- `src.split_to(header_len); src.split_to(byte_len)`, and the frame over what the second cuts off.
abbrev pub split_frame : List ℕ → ℕ → ℕ → FrameMeta → Decoded
split_frame src header_len byte_len meta = (
  ok (some (with_meta (take byte_len (drop header_len src)) meta)),
  drop byte_len (drop header_len src),
)

-- `u32::from_le_bytes([src[0], src[1], src[2], src[3]])`.
abbrev pub header_word : List ℕ → ℕ
header_word src = from_le_bytes (byte_at src 0 ∷ byte_at src 1 ∷ byte_at src 2 ∷ byte_at src 3 ∷ [])

pub header_word-append :
    (src more : List ℕ) → 4 ≤ length src → header_word (src ++ more) ≡ header_word src
header_word-append [] more h = absurd (omega arith)
header_word-append (a ∷ []) more h = absurd (omega arith)
header_word-append (a ∷ b ∷ []) more h = absurd (omega arith)
header_word-append (a ∷ b ∷ c ∷ []) more h = absurd (omega arith)
header_word-append (a ∷ b ∷ c ∷ d ∷ src) more h = refl

pub take-drop-append :
    (n k : ℕ) (src more : List ℕ)
    → k + n ≤ length src
    → take n (drop k (src ++ more)) ≡ take n (drop k src)
take-drop-append n zero src more h = take-append_le n src more (omega arith)
take-drop-append n (suc k) [] more h = absurd (omega arith)
take-drop-append n (suc k) (x ∷ src) more h = take-drop-append n k src more (omega arith)

pub drop-drop-append :
    (n k : ℕ) (src more : List ℕ)
    → k + n ≤ length src
    → drop n (drop k (src ++ more)) ≡ drop n (drop k src) ++ more
drop-drop-append n zero src more h = drop-append_le n src more (omega arith)
drop-drop-append n (suc k) [] more h = absurd (omega arith)
drop-drop-append n (suc k) (x ∷ src) more h = drop-drop-append n k src more (omega arith)
