-- ===== src/Stream/FrameCodec/Intermediate.antt =====
-- `decode_intermediate` and `encode_intermediate` of src/stream/frame_codec.rs.
pub mod Laws
use v3mtp.Prelude.{
  ℕ, ◌+◌, ◌-◌, ◌%◌, ◌^◌, Bool, List, ◌++◌, none, ok, err, length, to_le_bytes, bit_or, ltb, leb,
  if◌then◌else◌,
}
use v3mtp.Stream.Frame.{Frame, default_meta}
use v3mtp.Stream.FrameCodec.Wire.{Decoded, Encoded, frame_too_large, split_frame, header_word}

unfoldable pub decode_intermediate : List ℕ → ℕ → Decoded
decode_intermediate src max_size =
    let word = header_word src in
    let quickack = leb 0x80000000 word in
    let len = if quickack then word - 0x80000000 else word in
    if ltb (length src) 4
    then (ok none, src)
    else if ltb max_size len
    then (err (frame_too_large len max_size), src)
    else if ltb (length src) (4 + len)
    then (ok none, src)
    else split_frame src 4 len (record default_meta { quickack = quickack })

-- `data.len() as u32` keeps the low 32 bits.
unfoldable pub encode_intermediate : Frame → List ℕ → Encoded
encode_intermediate frame dst =
    let len = length frame.payload % 2 ^ 32 in
    let header = if frame.meta.quickack then bit_or len 0x80000000 else len in
    if frame.meta.simple_ack
    then (ok tt, dst ++ frame.payload)
    else (ok tt, dst ++ (to_le_bytes 4 header ++ frame.payload))
