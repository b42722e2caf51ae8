-- ===== src/Stream/FrameCodec/Secure/Laws.antt =====
-- The secure codec: what a call takes, what more input changes, the round trip, and the empty
-- payload.
use v3mtp.Prelude.{
  ℕ, ◌+◌, ◌-◌, ◌%◌, ◌^◌, ◌≤◌, ◌<◌, ◌≡◌, Bool, false, List, [], ◌++◌, some, ok, err, arith, length,
  take, drop, length-append, length-take, length-drop, take-length-append, drop-length-append,
  bit_or_high, leb, if◌then◌else◌, to_le_bytes, ap,
}
use v3mtp.Crypto.Random
use v3mtp.Crypto.Random.{Source, SecureRandom}
use v3mtp.Crypto.Random.Laws.{length-bytes, range-lt}
use v3mtp.Protocol.Constants.{secure_padding_len}
use v3mtp.Stream.Frame.{Frame, default_meta}
use v3mtp.Stream.FrameCodec.Wire.{
  Extends, Takes, take-drop-append, drop-drop-append, header_word, header_word-append,
  invalid_secure_frame_length,
}
use v3mtp.Stream.FrameCodec.Secure.{decode_secure, encode_secure}

abbrev word_len : ℕ → ℕ
word_len word = if leb 0x80000000 word then word - 0x80000000 else word

pub decode_secure-Extends :
    (src more : List ℕ) (max_size : ℕ)
    → Extends (decode_secure src max_size) more (decode_secure (src ++ more) max_size)
unfolding decode_secure
decode_secure-Extends src more max_size = ground (
  arith,
  header_word-append src more,
  length-append src more,
  take-drop-append (word_len (header_word src)) 4 src more,
  drop-drop-append (word_len (header_word src)) 4 src more,
)

pub decode_secure-Takes :
    (src : List ℕ) (max_size : ℕ) → Takes src max_size (decode_secure src max_size)
unfolding decode_secure
decode_secure-Takes src max_size =
    let len = word_len (header_word src) in
    ground (
      arith,
      length-take (len - len % 4) (take len (drop 4 src)),
      length-take len (drop 4 src),
      length-drop len (drop 4 src),
      length-drop 4 src,
    )

-- The padding is 1 to 3 bytes, so the record's length is never a multiple of four.
padding_bounds :
    (source : Source) (len : ℕ) (rng : SecureRandom source)
    → (1 ≤ (secure_padding_len source len rng).0) × ((secure_padding_len source len rng).0 ≤ 3)
unfolding secure_padding_len
padding_bounds source len rng = omega (arith, range-lt source 3 rng (omega arith))

-- The bytes of a record over `payload` and `padding`.
abbrev wire : Bool → List ℕ → List ℕ → List ℕ
wire quickack payload padding =
    let len = length payload + length padding in
    to_le_bytes 4 (if quickack then len + 0x80000000 else len) ++ (payload ++ padding)

module _ (source : Source) (frame : Frame) (dst : List ℕ) (rng : SecureRandom source) where
  abbrev drawn : ℕ × SecureRandom source
  drawn = secure_padding_len source (length frame.payload) rng

  abbrev padding : List ℕ
  padding = (Random.bytes source drawn.0 drawn.1).0

  padding_lengths : (length padding ≡ drawn.0) × (1 ≤ length padding) × (length padding ≤ 3)
  padding_lengths =
      omega (
        arith,
        length-bytes source drawn.0 drawn.1,
        padding_bounds source (length frame.payload) rng,
      )

  encode_secure-wire :
      frame.meta.simple_ack ≡ false
      → length frame.payload % 4 ≡ 0
      → length frame.payload + 3 < 2 ^ 31
      → ((encode_secure source frame dst rng).0 ≡ ok tt)
        × ((encode_secure source frame dst rng).1
            ≡ dst ++ wire frame.meta.quickack frame.payload padding)
  unfolding encode_secure
  encode_secure-wire plain aligned small =
      ground (arith, padding_lengths, bit_or_high 31 1 (length frame.payload + length padding))

-- The frame as the receiver sees it.
abbrev pub received : Frame → ℕ → Frame
received frame padding_len = record frame {
  meta = record default_meta { quickack = frame.meta.quickack; padding_len = padding_len };
}

decode-wire :
    (frame : Frame) (padding rest : List ℕ) (max_size : ℕ)
    → length frame.payload % 4 ≡ 0
    → 0 < length frame.payload
    → length padding ≤ 3
    → length frame.payload + 3 < 2 ^ 31
    → length frame.payload + length padding ≤ max_size
    → decode_secure (wire frame.meta.quickack frame.payload padding ++ rest) max_size
      ≡ (ok (some (received frame (length padding))), rest)
unfolding decode_secure
decode-wire frame padding rest max_size aligned pos short small fits =
    let total = length frame.payload + length padding in
    ground (
      arith,
      length-append frame.payload padding,
      length-append (frame.payload ++ padding) rest,
      take-length-append total (frame.payload ++ padding) rest,
      take-length-append (length frame.payload) frame.payload padding,
      drop-length-append total (frame.payload ++ padding) rest,
    )

-- A record of less than four bytes is refused, and stays in the buffer.
decode-short :
    (quickack : Bool) (payload padding rest : List ℕ) (max_size : ℕ)
    → length payload + length padding ≤ 3
    → 3 ≤ max_size
    → decode_secure (wire quickack payload padding ++ rest) max_size ≡ (
      err (invalid_secure_frame_length (length payload + length padding)),
      wire quickack payload padding ++ rest,
    )
unfolding decode_secure
decode-short quickack payload padding rest max_size short fits =
    ground (arith, length-append payload padding, length-append (payload ++ padding) rest)

-- The record that `encode_secure` appends: its length, and that it reads back as the frame.
abbrev pub Delivered : (source : Source) → Frame → List ℕ → SecureRandom source → ℕ → Type 0
Delivered source frame dst rng max_size =
    (sent : List ℕ) × (padding_len : ℕ) × (1 ≤ padding_len)
    × (padding_len ≤ 3)
    × (length sent ≡ 4 + length frame.payload + padding_len)
    × ((encode_secure source frame dst rng).0 ≡ ok tt)
    × ((encode_secure source frame dst rng).1 ≡ dst ++ sent)
    × ((rest : List ℕ)
        → decode_secure (sent ++ rest) max_size ≡ (ok (some (received frame padding_len)), rest))

-- A frame that is no simple ACK, of a whole, positive number of words, whose payload with 3 bytes more
-- is below 2 ^ 31 bytes and keeps the limit of the decoder, is written with 1 to 3 bytes of padding, so
-- that its record is 5 to 7 bytes longer than the payload, and reads back with its payload, flag and
-- padding length, whatever follows it.
pub decode_secure-encode_secure :
    (source : Source) (frame : Frame) (dst : List ℕ) (rng : SecureRandom source) (max_size : ℕ)
    → frame.meta.simple_ack ≡ false
    → length frame.payload % 4 ≡ 0
    → 0 < length frame.payload
    → length frame.payload + 3 < 2 ^ 31
    → length frame.payload + 3 ≤ max_size
    → Delivered source frame dst rng max_size
decode_secure-encode_secure source frame dst rng max_size plain aligned pos small fits =
    let (sizes, lo, hi) = padding_lengths source frame dst rng in
    let (done, written) = encode_secure-wire source frame dst rng plain aligned small in
    let pad = padding source frame dst rng in
    (
      wire frame.meta.quickack frame.payload pad,
      length pad,
      lo,
      hi,
      omega (arith, length-append frame.payload pad),
      done,
      written,
      λ rest. decode-wire frame pad rest max_size aligned pos hi small (omega arith),
    )

-- A record that `encode_secure` appends and `decode_secure` refuses and leaves in the buffer.
abbrev pub Refused : (source : Source) → Frame → List ℕ → SecureRandom source → ℕ → Type 0
Refused source frame dst rng max_size =
    (sent : List ℕ) × (n : ℕ) × ((encode_secure source frame dst rng).0 ≡ ok tt)
    × ((encode_secure source frame dst rng).1 ≡ dst ++ sent)
    × ((rest : List ℕ)
        → decode_secure (sent ++ rest) max_size
          ≡ (err (invalid_secure_frame_length n), sent ++ rest))

-- For every frame with an empty payload that is no simple ACK, `encode_secure` succeeds, and
-- `decode_secure`, with a limit of 3 bytes or more, answers the record with an error.
pub encode_secure_empty :
    (source : Source) (frame : Frame) (dst : List ℕ) (rng : SecureRandom source) (max_size : ℕ)
    → frame.meta.simple_ack ≡ false
    → frame.payload ≡ []
    → 3 ≤ max_size
    → Refused source frame dst rng max_size
encode_secure_empty source frame dst rng max_size plain none_sent fits =
    let (sizes, lo, hi) = padding_lengths source frame dst rng in
    let empty : length frame.payload ≡ 0 = ap length none_sent in
    let (done, written) =
      encode_secure-wire source frame dst rng plain (omega arith) (omega arith) in
    let pad = padding source frame dst rng in
    (
      wire frame.meta.quickack frame.payload pad,
      length frame.payload + length pad,
      done,
      written,
      λ rest. decode-short frame.meta.quickack frame.payload pad rest max_size (omega arith) fits,
    )
