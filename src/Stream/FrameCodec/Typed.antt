-- ===== src/Stream/FrameCodec/Typed.antt =====
-- The typed codecs of src/stream/frame_codec.rs behind the trait `FrameCodec` of
-- src/stream/frame.rs: one constructor for each of the three structs.
use v3mtp.Prelude.{ℕ, ◌-◌, ◌<◌, ◌≡◌, refl, List, [], ◌∷◌, ok, err, none, arith, length}
use v3mtp.Crypto.Random.{Source, SecureRandom}
use v3mtp.Protocol.Constants.{ProtoTag, abridged, intermediate, secure}
use v3mtp.Stream.Frame.{Frame}
use v3mtp.Stream.FrameCodec
use v3mtp.Stream.FrameCodec.{FrameCodec, default_max_frame_size}
use v3mtp.Stream.FrameCodec.Wire.{Decoded, IoResult}
use v3mtp.Stream.FrameCodec.Abridged.{decode_abridged, encode_abridged}
use v3mtp.Stream.FrameCodec.Intermediate.{decode_intermediate, encode_intermediate}
use v3mtp.Stream.FrameCodec.Secure.{decode_secure, encode_secure}

module _ (source : Source) where
  pub data TypedCodec : Type 0 where
    abridged_codec : ℕ → TypedCodec
    intermediate_codec : ℕ → TypedCodec
    secure_codec : ℕ → SecureRandom source → TypedCodec

  -- Over `AbridgedCodec::new`, `IntermediateCodec::new` and `SecureCodec::new`.
  unfoldable pub create_codec : ProtoTag → SecureRandom source → TypedCodec
  create_codec abridged rng = abridged_codec default_max_frame_size
  create_codec intermediate rng = intermediate_codec default_max_frame_size
  create_codec secure rng = secure_codec default_max_frame_size rng

  unfoldable pub proto_tag : TypedCodec → ProtoTag
  proto_tag (abridged_codec max) = abridged
  proto_tag (intermediate_codec max) = intermediate
  proto_tag (secure_codec max rng) = secure

  unfoldable pub min_header_size : TypedCodec → ℕ
  min_header_size (abridged_codec max) = 1
  min_header_size (intermediate_codec max) = 4
  min_header_size (secure_codec max rng) = 4

  unfoldable pub decode : TypedCodec → List ℕ → Decoded
  decode (abridged_codec max) src = decode_abridged src max
  decode (intermediate_codec max) src = decode_intermediate src max
  decode (secure_codec max rng) src = decode_secure src max

  -- `Ok(dst.len() - before)` behind a `?`.
  abbrev pub counted : IoResult (Unit {0}) → List ℕ → List ℕ → IoResult ℕ
  counted (ok u) before after = ok (length after - length before)
  counted (err e) before after = err e

  -- The trait's `encode`: the number of bytes written, `dst` and the codec after the call.
  unfoldable pub encode : TypedCodec → Frame → List ℕ → IoResult ℕ × List ℕ × TypedCodec
  encode (abridged_codec max) frame dst =
      let r = encode_abridged frame dst in (counted r.0 dst r.1, r.1, abridged_codec max)
  encode (intermediate_codec max) frame dst =
      let r = encode_intermediate frame dst in (counted r.0 dst r.1, r.1, intermediate_codec max)
  encode (secure_codec max rng) frame dst =
      let r = encode_secure source frame dst rng in (counted r.0 dst r.1, r.1, secure_codec max r.2)

  -- A typed codec does what the unified codec of its tag does, and says how much it wrote.
  pub create_codec-agrees :
      (tag : ProtoTag) (rng : SecureRandom source) (frame : Frame) (buffer : List ℕ)
      → let one = create_codec tag rng in
        let all = FrameCodec.new source tag rng in
        (proto_tag one ≡ tag)
        × (decode one buffer ≡ FrameCodec.decode source all buffer)
        × ((encode one frame buffer).1 ≡ (FrameCodec.encode source all frame buffer).1)
        × ((encode one frame buffer).0
            ≡ counted
                (FrameCodec.encode source all frame buffer).0
                buffer
                (FrameCodec.encode source all frame buffer).1)
  unfolding create_codec proto_tag decode encode FrameCodec.new FrameCodec.decode FrameCodec.encode
  create_codec-agrees abridged rng frame buffer = (refl, refl, refl, refl)
  create_codec-agrees intermediate rng frame buffer = (refl, refl, refl, refl)
  create_codec-agrees secure rng frame buffer = (refl, refl, refl, refl)

  -- With fewer bytes than `min_header_size` a decoder waits for more and takes nothing.
  pub decode_short :
      (codec : TypedCodec) (src : List ℕ)
      → length src < min_header_size codec
      → decode codec src ≡ (ok none, src)
  unfolding min_header_size decode decode_abridged decode_intermediate decode_secure
  decode_short (abridged_codec max) [] h = refl
  decode_short (abridged_codec max) (b ∷ src) h = absurd (omega arith)
  decode_short (intermediate_codec max) src h = ground arith
  decode_short (secure_codec max rng) src h = ground arith
