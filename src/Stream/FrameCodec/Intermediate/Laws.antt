-- ===== src/Stream/FrameCodec/Intermediate/Laws.antt =====
-- The intermediate codec: what a call takes, what more input changes, and the round trip.
use v3mtp.Prelude.{
  ℕ, ◌+◌, ◌-◌, ◌^◌, ◌≤◌, ◌<◌, ◌≡◌, Bool, false, List, ◌++◌, some, ok, arith, length, drop,
  length-append, length-take, length-drop, take-length-append, drop-length-append, bit_or_high, leb,
  if◌then◌else◌, to_le_bytes,
}
use v3mtp.Stream.Frame.{Frame, default_meta}
use v3mtp.Stream.FrameCodec.Wire.{
  Extends, Takes, take-drop-append, drop-drop-append, header_word, header_word-append,
}
use v3mtp.Stream.FrameCodec.Intermediate.{decode_intermediate, encode_intermediate}

-- The length in a header word, without the quick-ack bit.
abbrev pub word_len : ℕ → ℕ
word_len word = if leb 0x80000000 word then word - 0x80000000 else word

pub decode_intermediate-Extends :
    (src more : List ℕ) (max_size : ℕ)
    → Extends (decode_intermediate src max_size) more (decode_intermediate (src ++ more) max_size)
unfolding decode_intermediate
decode_intermediate-Extends src more max_size = ground (
  arith,
  header_word-append src more,
  length-append src more,
  take-drop-append (word_len (header_word src)) 4 src more,
  drop-drop-append (word_len (header_word src)) 4 src more,
)

pub decode_intermediate-Takes :
    (src : List ℕ) (max_size : ℕ) → Takes src max_size (decode_intermediate src max_size)
unfolding decode_intermediate
decode_intermediate-Takes src max_size = ground (
  arith,
  length-take (word_len (header_word src)) (drop 4 src),
  length-drop (word_len (header_word src)) (drop 4 src),
  length-drop 4 src,
)

-- The header word of a payload of `len` bytes.
abbrev pub flagged : Bool → ℕ → ℕ
flagged quickack len = if quickack then len + 0x80000000 else len

pub header-word_bytes :
    (w : ℕ) (rest : List ℕ) → w < 2 ^ 32 → header_word (to_le_bytes 4 w ++ rest) ≡ w
header-word_bytes w rest h = omega arith

encode_intermediate-wire :
    (frame : Frame) (dst : List ℕ)
    → frame.meta.simple_ack ≡ false
    → length frame.payload < 2 ^ 31
    → encode_intermediate frame dst ≡ (
      ok tt,
      dst ++ (to_le_bytes 4 (flagged frame.meta.quickack (length frame.payload)) ++ frame.payload),
    )
unfolding encode_intermediate
encode_intermediate-wire frame dst plain small =
    ground (arith, bit_or_high 31 1 (length frame.payload))

decode-wire :
    (frame : Frame) (rest : List ℕ) (max_size : ℕ)
    → length frame.payload < 2 ^ 31
    → length frame.payload ≤ max_size
    → decode_intermediate
        ((to_le_bytes 4 (flagged frame.meta.quickack (length frame.payload)) ++ frame.payload)
          ++ rest)
        max_size
      ≡ (
        ok (some (record frame { meta = record default_meta { quickack = frame.meta.quickack } })),
        rest,
      )
unfolding decode_intermediate
decode-wire frame rest max_size small fits = ground (
  arith,
  length-append frame.payload rest,
  take-length-append (length frame.payload) frame.payload rest,
  drop-length-append (length frame.payload) frame.payload rest,
)

-- The frame as the receiver sees it: the padding length is not sent.
abbrev pub received : Frame → Frame
received frame = record frame { meta = record default_meta { quickack = frame.meta.quickack } }

pub decode_intermediate-encode_intermediate :
    (frame : Frame) (dst : List ℕ) (max_size : ℕ)
    → frame.meta.simple_ack ≡ false
    → length frame.payload < 2 ^ 31
    → length frame.payload ≤ max_size
    → (sent : List ℕ) × (encode_intermediate frame dst ≡ (ok tt, dst ++ sent))
      × ((rest : List ℕ)
          → decode_intermediate (sent ++ rest) max_size ≡ (ok (some (received frame)), rest))
decode_intermediate-encode_intermediate frame dst max_size plain small fits = (
  _,
  encode_intermediate-wire frame dst plain small,
  λ rest. decode-wire frame rest max_size small fits,
)
