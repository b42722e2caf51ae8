-- ===== src/Stream/FrameCodec/Secure.antt =====
-- `decode_secure` and `encode_secure` of src/stream/frame_codec.rs.
pub mod Laws
use v3mtp.Prelude.{
  ℕ, ◌+◌, ◌-◌, ◌%◌, ◌^◌, Bool, List, ◌++◌, none, some, ok, err, length, take, drop, to_le_bytes,
  bit_or, ltb, leb, if◌then◌else◌,
}
use v3mtp.Crypto.Random
use v3mtp.Crypto.Random.{Source, SecureRandom}
use v3mtp.Protocol.Constants.{
  is_valid_secure_payload_len, secure_payload_len_from_wire_len, secure_padding_len,
}
use v3mtp.Stream.Frame.{Frame, default_meta, with_meta}
use v3mtp.Stream.FrameCodec.Wire.{
  Decoded, IoResult, frame_too_large, invalid_secure_frame_length, secure_not_aligned, header_word,
}

-- The payload is the front of the record; the rest of it is padding.
unfoldable pub decode_secure : List ℕ → ℕ → Decoded
unfolding secure_payload_len_from_wire_len
decode_secure src max_size =
    let word = header_word src in
    let quickack = leb 0x80000000 word in
    let len = if quickack then word - 0x80000000 else word in
    if ltb (length src) 4
    then (ok none, src)
    else if ltb max_size len
    then (err (frame_too_large len max_size), src)
    else if ltb (length src) (4 + len)
    then (ok none, src)
    else elim (secure_payload_len_from_wire_len len) [
      | none ↦ (err (invalid_secure_frame_length len), src)
      | some data_len ↦ (
        ok (
            some (
              with_meta (take data_len (take len (drop 4 src))) (record default_meta {
                quickack = quickack;
                padding_len = (len - data_len) % 256;
              }))),
        drop len (drop 4 src),
      )
    ]

module _ (source : Source) where
  -- The result, `dst` after the call, and the generator after the call.
  unfoldable pub encode_secure :
      Frame → List ℕ → SecureRandom source → IoResult (Unit {0}) × List ℕ × SecureRandom source
  unfolding is_valid_secure_payload_len secure_padding_len
  encode_secure frame dst rng =
      let drawn = secure_padding_len source (length frame.payload) rng in
      let padding_len = drawn.0 in
      let total_len = length frame.payload + padding_len in
      let len = total_len % 2 ^ 32 in
      let header = if frame.meta.quickack then bit_or len 0x80000000 else len in
      let padding = Random.bytes source padding_len drawn.1 in
      if frame.meta.simple_ack
      then (ok tt, dst ++ frame.payload, rng)
      else if is_valid_secure_payload_len (length frame.payload)
      then (if ltb 0 padding_len
          then (ok tt, dst ++ (to_le_bytes 4 header ++ (frame.payload ++ padding.0)), padding.1)
          else (ok tt, dst ++ (to_le_bytes 4 header ++ frame.payload), drawn.1))
      else (err (secure_not_aligned (length frame.payload)), dst, rng)
