-- ===== src/Stream/FrameCodec/Abridged.antt =====
-- `decode_abridged` and `encode_abridged` of src/stream/frame_codec.rs.
pub mod Laws
pub mod Outcomes
use v3mtp.Prelude.{
  ℕ, ◌+◌, ◌-◌, ◌*◌, ◌/◌, ◌%◌, ◌^◌, Bool, true, false, List, [], ◌∷◌, ◌++◌, Option, none, some, ok,
  err, length, take, drop, reverse, is_empty, byte_at, from_le_bytes, to_le_bytes, checked_mul,
  bit_and, bit_or, ltb, leb, ◌==◌, if◌then◌else◌,
}
use v3mtp.Stream.Frame.{Frame, FrameMeta, default_meta}
use v3mtp.Stream.FrameCodec.Wire.{
  Decoded, Encoded, frame_length_overflow, frame_too_large, abridged_not_aligned,
  abridged_too_large, split_frame,
}

-- From `checked_mul` on, when `len_words` and `header_len` are known.
abridged_body : List ℕ → ℕ → FrameMeta → ℕ → ℕ → Decoded
abridged_body src max_size meta len_words header_len = elim (checked_mul len_words 4) [
  | none ↦ (err frame_length_overflow, src)
  | some byte_len ↦
      if ltb max_size byte_len
      then (err (frame_too_large byte_len max_size), src)
      else if ltb (length src) (header_len + byte_len)
      then (ok none, src)
      else split_frame src header_len byte_len meta
]

unfoldable pub decode_abridged : List ℕ → ℕ → Decoded
unfolding abridged_body
decode_abridged src max_size =
    let first_byte = byte_at src 0 in
    let len_words = bit_and first_byte 0x7f in
    let meta = record default_meta { quickack = leb 0x80 first_byte } in
    if is_empty src
    then (ok none, src)
    else if len_words == 0x7f
    then (if ltb (length src) 4
        then (ok none, src)
        else abridged_body src max_size meta
            (from_le_bytes (byte_at src 1 ∷ byte_at src 2 ∷ byte_at src 3 ∷ 0 ∷ [])) 4)
    else abridged_body src max_size meta len_words 1

-- The header byte, with the quick-ack bit.
abridged_first : Frame → ℕ → ℕ
abridged_first frame byte = if frame.meta.quickack then bit_or byte 0x80 else byte

unfoldable pub encode_abridged : Frame → List ℕ → Encoded
unfolding abridged_first
encode_abridged frame dst =
    let len_words = length frame.payload / 4 in
    if length frame.payload % 4 == 0
    then (if frame.meta.simple_ack
        then (ok tt, dst ++ reverse frame.payload)
        else if ltb len_words 0x7f
        then (ok tt, dst ++ (abridged_first frame len_words ∷ frame.payload))
        else if ltb len_words (2 ^ 24)
        then (
          ok tt,
          dst ++ (abridged_first frame 0x7f ∷ (take 3 (to_le_bytes 4 len_words) ++ frame.payload)),
        )
        else (err (abridged_too_large (length frame.payload)), dst))
    else (err (abridged_not_aligned (length frame.payload)), dst)
