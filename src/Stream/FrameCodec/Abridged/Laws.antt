-- ===== src/Stream/FrameCodec/Abridged/Laws.antt =====
-- The abridged codec: what a call takes, what more input changes, and the round trip.
use v3mtp.Prelude.{
  ℕ, ◌+◌, ◌*◌, ◌/◌, ◌%◌, ◌^◌, ◌≤◌, ◌<◌, ◌≡◌, refl, false, List, [], ◌∷◌, ◌++◌, some, ok, arith,
  length, drop, byte_at, bit_and, from_le_bytes, length-append, length-take, length-drop,
  take-length-append, drop-length-append, bit_and_low_seven, bit_or_top, ltb, leb, if◌then◌else◌,
}
use v3mtp.Stream.Frame.{Frame, FrameMeta, default_meta}
use v3mtp.Stream.FrameCodec.Wire.{Extends, Takes, take-drop-append, drop-drop-append}
use v3mtp.Stream.FrameCodec.Abridged.{abridged_body, decode_abridged, encode_abridged}

body-Extends :
    (src more : List ℕ) (max_size : ℕ) (meta : FrameMeta) (words header : ℕ)
    → Extends
        (abridged_body src max_size meta words header)
        more
        (abridged_body (src ++ more) max_size meta words header)
unfolding abridged_body
body-Extends src more max_size meta words header = ground (
  arith,
  length-append src more,
  take-drop-append (words * 4) header src more,
  drop-drop-append (words * 4) header src more,
)

-- The meta data that the first byte stands for.
abbrev first_meta : ℕ → FrameMeta
first_meta a = record default_meta { quickack = leb 0x80 a }

-- For any input, complete or not: more bytes behind it leave a frame or an error as it is.
pub decode_abridged-Extends :
    (src more : List ℕ) (max_size : ℕ)
    → Extends (decode_abridged src max_size) more (decode_abridged (src ++ more) max_size)
unfolding decode_abridged
decode_abridged-Extends [] more max_size = tt
decode_abridged-Extends (a ∷ []) more max_size =
    ground (arith, body-Extends (a ∷ []) more max_size (first_meta a) (bit_and a 0x7f) 1)
decode_abridged-Extends (a ∷ b ∷ []) more max_size =
    ground (arith, body-Extends (a ∷ b ∷ []) more max_size (first_meta a) (bit_and a 0x7f) 1)
decode_abridged-Extends (a ∷ b ∷ c ∷ []) more max_size =
    ground (arith, body-Extends (a ∷ b ∷ c ∷ []) more max_size (first_meta a) (bit_and a 0x7f) 1)
decode_abridged-Extends (a ∷ b ∷ c ∷ d ∷ src) more max_size = ground (
  arith,
  body-Extends (a ∷ b ∷ c ∷ d ∷ src) more max_size (first_meta a) (bit_and a 0x7f) 1,
  body-Extends (a ∷ b ∷ c ∷ d ∷ src) more max_size (first_meta a)
      (from_le_bytes (b ∷ c ∷ d ∷ 0 ∷ [])) 4,
)

body-Takes :
    (src : List ℕ) (max_size : ℕ) (meta : FrameMeta) (words header : ℕ)
    → 0 < header
    → Takes src max_size (abridged_body src max_size meta words header)
unfolding abridged_body
body-Takes src max_size meta words header h = ground (
  arith,
  length-take (words * 4) (drop header src),
  length-drop (words * 4) (drop header src),
  length-drop header src,
)

pub decode_abridged-Takes :
    (src : List ℕ) (max_size : ℕ) → Takes src max_size (decode_abridged src max_size)
unfolding decode_abridged
decode_abridged-Takes [] max_size = refl
decode_abridged-Takes (a ∷ src) max_size = ground (
  arith,
  body-Takes (a ∷ src) max_size (first_meta a) (bit_and a 0x7f) 1,
  body-Takes (a ∷ src) max_size (first_meta a)
      (from_le_bytes (byte_at src 0 ∷ byte_at src 1 ∷ byte_at src 2 ∷ 0 ∷ [])) 4,
)

-- What `encode_abridged` puts on the wire for a frame that is no simple ACK.
abbrev pub wire : Frame → List ℕ
wire frame =
    let words = length frame.payload / 4 in
    let flag = if frame.meta.quickack then 0x80 else 0 in
    if ltb words 0x7f
    then (words + flag) ∷ frame.payload
    else (0x7f + flag)
      ∷ (words % 256)
      ∷ (words / 256 % 256)
      ∷ (words / 256 / 256 % 256)
      ∷ frame.payload

pub encode_abridged-wire :
    (frame : Frame) (dst : List ℕ)
    → frame.meta.simple_ack ≡ false
    → length frame.payload % 4 ≡ 0
    → length frame.payload / 4 < 2 ^ 24
    → encode_abridged frame dst ≡ (ok tt, dst ++ wire frame)
unfolding encode_abridged
encode_abridged-wire frame dst plain aligned small =
    ground (arith, bit_or_top (length frame.payload / 4))

pub decode-wire :
    (frame : Frame) (rest : List ℕ) (max_size : ℕ)
    → length frame.payload % 4 ≡ 0
    → length frame.payload / 4 < 2 ^ 24
    → length frame.payload ≤ max_size
    → decode_abridged (wire frame ++ rest) max_size ≡ (
      ok (some (record frame { meta = record default_meta { quickack = frame.meta.quickack } })),
      rest,
    )
unfolding decode_abridged abridged_body
decode-wire frame rest max_size aligned small fits = ground (
  arith,
  bit_and_low_seven (length frame.payload / 4),
  bit_and_low_seven (length frame.payload / 4 + 0x80),
  length-append frame.payload rest,
  take-length-append (length frame.payload / 4 * 4) frame.payload rest,
  drop-length-append (length frame.payload / 4 * 4) frame.payload rest,
)

-- The frame as the receiver sees it: the padding length is not sent.
abbrev pub received : Frame → Frame
received frame = record frame { meta = record default_meta { quickack = frame.meta.quickack } }

pub decode_abridged-encode_abridged :
    (frame : Frame) (dst : List ℕ) (max_size : ℕ)
    → frame.meta.simple_ack ≡ false
    → length frame.payload % 4 ≡ 0
    → length frame.payload / 4 < 2 ^ 24
    → length frame.payload ≤ max_size
    → (sent : List ℕ) × (encode_abridged frame dst ≡ (ok tt, dst ++ sent))
      × ((rest : List ℕ)
          → decode_abridged (sent ++ rest) max_size ≡ (ok (some (received frame)), rest))
decode_abridged-encode_abridged frame dst max_size plain aligned small fits = (
  wire frame,
  encode_abridged-wire frame dst plain aligned small,
  λ rest. decode-wire frame rest max_size aligned small fits,
)
