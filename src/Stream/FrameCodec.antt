-- ===== src/Stream/FrameCodec.antt =====
-- src/stream/frame_codec.rs: the codec over all protocol variants. The children model each
-- variant, and prove the laws of the codec over all of them.
pub mod Wire
pub mod Abridged
pub mod Intermediate
pub mod Secure
pub mod Laws
pub mod Session
pub mod Typed
mod Examples
use v3mtp.Prelude.{ℕ, ◌*◌, List}
use v3mtp.Crypto.Random.{Source, SecureRandom}
use v3mtp.Protocol.Constants.{ProtoTag, abridged, intermediate, secure}
use v3mtp.Stream.Frame.{Frame}
use v3mtp.Stream.FrameCodec.Wire.{Decoded, IoResult}
use v3mtp.Stream.FrameCodec.Abridged.{decode_abridged, encode_abridged}
use v3mtp.Stream.FrameCodec.Intermediate.{decode_intermediate, encode_intermediate}
use v3mtp.Stream.FrameCodec.Secure.{decode_secure, encode_secure}

pub record FrameCodec (source : Source) : Type 0 where
  pub proto_tag : ProtoTag
  pub max_frame_size : ℕ
  pub rng : SecureRandom source

abbrev pub default_max_frame_size : ℕ
default_max_frame_size = 16 * 1024 * 1024

abbrev decode_as : ProtoTag → List ℕ → ℕ → Decoded
decode_as abridged = decode_abridged
decode_as intermediate = decode_intermediate
decode_as secure = decode_secure

module _ (source : Source) where
  unfoldable pub new : ProtoTag → SecureRandom source → FrameCodec source
  new proto_tag rng = record {
    proto_tag = proto_tag;
    max_frame_size = default_max_frame_size;
    rng = rng;
  }

  unfoldable pub with_max_frame_size : ℕ → FrameCodec source → FrameCodec source
  with_max_frame_size size codec = record codec { max_frame_size = size }

  unfoldable pub decode : FrameCodec source → List ℕ → Decoded
  decode codec src = decode_as codec.proto_tag src codec.max_frame_size

  abbrev encode_as :
      ProtoTag
      → Frame
      → List ℕ
      → SecureRandom source
      → IoResult (Unit {0}) × List ℕ × SecureRandom source
  encode_as abridged frame dst rng =
      ((encode_abridged frame dst).0, (encode_abridged frame dst).1, rng)
  encode_as intermediate frame dst rng =
      ((encode_intermediate frame dst).0, (encode_intermediate frame dst).1, rng)
  encode_as secure frame dst rng = encode_secure source frame dst rng

  -- The result, `dst` after the call, and the codec with the generator moved on.
  unfoldable pub encode :
      FrameCodec source → Frame → List ℕ → IoResult (Unit {0}) × List ℕ × FrameCodec source
  encode codec frame dst =
      let r = encode_as codec.proto_tag frame dst codec.rng in
      (r.0, r.1, record codec { rng = r.2 })
