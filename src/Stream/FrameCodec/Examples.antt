-- ===== src/Stream/FrameCodec/Examples.antt =====
-- Runs of the codecs, and the theorems at concrete inputs.
use v3mtp.Prelude.{ℕ, ◌≡◌, refl, true, false, List, [], ◌∷◌, ◌++◌, none, some, ok, err, arith, map}
use v3mtp.Crypto.Random
use v3mtp.Crypto.Random.Sample.{sample, sample_rng}
use v3mtp.Protocol.Constants.{ProtoTag, abridged, secure}
use v3mtp.Stream.Frame.{Frame, new, quickack}
use v3mtp.Stream.FrameCodec
use v3mtp.Stream.FrameCodec.{FrameCodec}
use v3mtp.Stream.FrameCodec.Abridged.{encode_abridged, decode_abridged}
use v3mtp.Stream.FrameCodec.Abridged.Outcomes.{Outcome, encode_abridged-Outcome}
use v3mtp.Stream.FrameCodec.Intermediate.{decode_intermediate}
use v3mtp.Stream.FrameCodec.Secure.{encode_secure}
use v3mtp.Stream.FrameCodec.Secure.Laws.{
  decode_secure-encode_secure, encode_secure_empty, Delivered, Refused,
}
use v3mtp.Stream.FrameCodec.Wire.{Extends, Takes, frame_too_large}
use v3mtp.Stream.FrameCodec.Laws.{decode-Extends, decode-Takes, content}
use v3mtp.Stream.FrameCodec.Session.{receive, send_frames, receive-send_frames}

abbrev eight : List ℕ
eight = 1 ∷ 2 ∷ 3 ∷ 4 ∷ 5 ∷ 6 ∷ 7 ∷ 8 ∷ []

abbrev codec : ProtoTag → FrameCodec sample
codec tag = record { proto_tag = tag; max_frame_size = 1024; rng = sample_rng }

abridged_run : encode_abridged (quickack eight) [] ≡ (ok tt, 0x82 ∷ eight)
unfolding encode_abridged
abridged_run = refl

abridged_partial : decode_abridged (0x02 ∷ 1 ∷ 2 ∷ []) 1024 ≡ (ok none, 0x02 ∷ 1 ∷ 2 ∷ [])
unfolding decode_abridged
abridged_partial = refl

intermediate_too_large :
    decode_intermediate (0 ∷ 8 ∷ 0 ∷ 0 ∷ []) 1024
    ≡ (err (frame_too_large 2048 1024), 0 ∷ 8 ∷ 0 ∷ 0 ∷ [])
unfolding decode_intermediate
intermediate_too_large = refl

secure_run :
    (encode_secure sample (new eight) [] sample_rng).1 ≡ 10 ∷ 0 ∷ 0 ∷ 0 ∷ (eight ++ 8 ∷ 8 ∷ [])
unfolding encode_secure Random.range Random.bytes
secure_run = refl

receive-send_frames_example :
    (got : List Frame) × (receive sample
        (codec secure)
        2
        (send_frames sample (codec secure) (new eight ∷ quickack eight ∷ []) [] ++ 9 ∷ [])
      ≡ some (got, 9 ∷ []))
    × (map content got ≡ (eight, false) ∷ (eight, true) ∷ [])
receive-send_frames_example =
    receive-send_frames sample (codec secure) (new eight ∷ quickack eight ∷ []) (9 ∷ [])
      ((refl, omega arith, omega arith), ((refl, omega arith, omega arith), tt))

decode-Extends_example :
    Extends
      (FrameCodec.decode sample (codec abridged) (0x02 ∷ eight))
      (9 ∷ [])
      (FrameCodec.decode sample (codec abridged) (0x02 ∷ (eight ++ 9 ∷ [])))
decode-Extends_example = decode-Extends sample (codec abridged) (0x02 ∷ eight) (9 ∷ [])

decode-Takes_example :
    Takes (0x02 ∷ eight) 1024 (FrameCodec.decode sample (codec abridged) (0x02 ∷ eight))
decode-Takes_example = decode-Takes sample (codec abridged) (0x02 ∷ eight)

decode_secure-encode_secure_example : Delivered sample (new eight) [] sample_rng 1024
decode_secure-encode_secure_example =
    decode_secure-encode_secure sample (new eight) [] sample_rng 1024 refl (omega arith)
      (omega arith) (omega arith) (omega arith)

encode_secure_empty_example : Refused sample (new []) [] sample_rng 1024
encode_secure_empty_example =
    encode_secure_empty sample (new []) [] sample_rng 1024 refl refl (omega arith)

encode_abridged-Outcome_example : Outcome (new (1 ∷ 2 ∷ [])) eight
encode_abridged-Outcome_example = encode_abridged-Outcome (new (1 ∷ 2 ∷ [])) eight
