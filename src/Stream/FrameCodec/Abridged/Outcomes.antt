-- ===== src/Stream/FrameCodec/Abridged/Outcomes.antt =====
-- Every outcome of `encode_abridged`.
use v3mtp.Prelude.{
  ℕ, ◌+◌, ◌/◌, ◌%◌, ◌^◌, ◌≤◌, ◌<◌, ◌≡◌, ◌≢◌, ◌⊎◌, inl, inr, arith, Bool, true, false, Bool-cases,
  List, ◌++◌, some, ok, err, length, reverse, ltb, ltb→lt, ltb_false→le, ◌==◌,
}
use mathlib.Core.List.{reverse-reverse}
use v3mtp.Stream.Frame.{Frame}
use v3mtp.Stream.FrameCodec.Wire.{IoError, abridged_not_aligned, abridged_too_large}
use v3mtp.Stream.FrameCodec.Abridged.{decode_abridged, encode_abridged}
use v3mtp.Stream.FrameCodec.Abridged.Laws.{wire, received, encode_abridged-wire, decode-wire}

-- A whole number of words, and less than 2 ^ 24 of them but in a simple ACK.
abbrev pub IsEncodable : Frame → Type 0
IsEncodable frame =
    (length frame.payload % 4 ≡ 0)
    × ((frame.meta.simple_ack ≡ true) ⊎ (length frame.payload / 4 < 2 ^ 24))

-- What is written for a frame: a simple ACK backwards, and any other so that it reads back, with any
-- bytes behind it and under any limit that its payload keeps.
abbrev pub IsWritten : Bool → Frame → List ℕ → Type 0
IsWritten true frame sent = reverse sent ≡ frame.payload
IsWritten false frame sent =
    (rest : List ℕ) (spare : ℕ)
    → decode_abridged (sent ++ rest) (length frame.payload + spare)
      ≡ (ok (some (received frame)), rest)

-- The outcomes of `encode_abridged`.
abbrev pub Outcome : Frame → List ℕ → Type 0
Outcome frame dst =
    (IsEncodable frame
      × ((sent : List ℕ) × (encode_abridged frame dst ≡ (ok tt, dst ++ sent))
          × IsWritten frame.meta.simple_ack frame sent))
    ⊎ ((IsEncodable frame → ⊥)
        × ((error : IoError) × (encode_abridged frame dst ≡ (err error, dst))))

encode_ack :
    (frame : Frame) (dst : List ℕ)
    → frame.meta.simple_ack ≡ true
    → length frame.payload % 4 ≡ 0
    → encode_abridged frame dst ≡ (ok tt, dst ++ reverse frame.payload)
unfolding encode_abridged
encode_ack frame dst ack aligned = ground arith

encode_unaligned :
    (frame : Frame) (dst : List ℕ)
    → length frame.payload % 4 ≢ 0
    → encode_abridged frame dst ≡ (err (abridged_not_aligned (length frame.payload)), dst)
unfolding encode_abridged
encode_unaligned frame dst not_aligned = ground arith

encode_large :
    (frame : Frame) (dst : List ℕ)
    → frame.meta.simple_ack ≡ false
    → length frame.payload % 4 ≡ 0
    → 2 ^ 24 ≤ length frame.payload / 4
    → encode_abridged frame dst ≡ (err (abridged_too_large (length frame.payload)), dst)
unfolding encode_abridged
encode_large frame dst plain aligned large = ground arith

ack_outcome :
    (frame : Frame) (dst : List ℕ)
    → frame.meta.simple_ack ≡ true
    → length frame.payload % 4 ≡ 0
    → Outcome frame dst
ack_outcome frame dst ack aligned = inl (
  (aligned, inl ack),
  (reverse frame.payload, encode_ack frame dst ack aligned, rw ack (reverse-reverse frame.payload)),
)

data_outcome :
    (frame : Frame) (dst : List ℕ)
    → frame.meta.simple_ack ≡ false
    → length frame.payload % 4 ≡ 0
    → length frame.payload / 4 < 2 ^ 24
    → Outcome frame dst
data_outcome frame dst plain aligned small = inl (
  (aligned, inr small),
  (
    wire frame,
    encode_abridged-wire frame dst plain aligned small,
    rw plain (λ rest spare.
        decode-wire frame rest (length frame.payload + spare) aligned small (omega arith)),
  ),
)

-- For any frame and destination: the encoder refuses exactly a payload that is no whole number of
-- words, and one of 2 ^ 24 words or more that is no simple ACK, and then leaves the destination as it
-- was. Otherwise it appends a record: a simple ACK is its payload backwards; any other frame is read
-- back by the decoder, with payload and flag, whatever follows it, under every limit from its length on.
pub encode_abridged-Outcome : (frame : Frame) (dst : List ℕ) → Outcome frame dst
encode_abridged-Outcome frame dst =
    let size = length frame.payload in
    elim (Bool-cases (size % 4 == 0)) [
      | inl whole ↦
          let aligned : size % 4 ≡ 0 = ground (arith, whole) in
          elim (Bool-cases frame.meta.simple_ack) [
            | inl ack ↦ ack_outcome frame dst ack aligned
            | inr plain ↦ elim (Bool-cases (ltb (size / 4) (2 ^ 24))) [
              | inl small ↦ data_outcome frame dst plain aligned (ltb→lt (size / 4) (2 ^ 24) small)
              | inr large ↦
                  let many : 2 ^ 24 ≤ size / 4 = ltb_false→le (size / 4) (2 ^ 24) large in
                  inr (
                    (λ h. elim h.1 [
                      | inl ack ↦ ground (arith, plain, ack)
                      | inr small ↦ omega (arith, many, small)
                    ]),
                    (abridged_too_large size, encode_large frame dst plain aligned many),
                  )
            ]
          ]
      | inr odd ↦
          let not_aligned : size % 4 ≢ 0 = λ e. ground (arith, odd, e) in
          inr (
            (λ h. not_aligned h.0),
            (abridged_not_aligned size, encode_unaligned frame dst not_aligned),
          )
    ]
