-- ===== src/Stream/FrameCodec/Laws.antt =====
-- Laws of the codec over all variants: incremental decoding, bounds, and whole streams of frames.
use v3mtp.Prelude.{
  ℕ, ◌+◌, ◌/◌, ◌%◌, ◌^◌, ◌≤◌, ◌<◌, ◌≡◌, refl, ap, Bool, false, List, ◌++◌, some, ok, arith, length,
}
use v3mtp.Crypto.Random.{Source, SecureRandom}
use v3mtp.Protocol.Constants.{ProtoTag, abridged, intermediate, secure}
use v3mtp.Stream.Frame.{Frame}
use v3mtp.Stream.FrameCodec
use v3mtp.Stream.FrameCodec.{FrameCodec}
use v3mtp.Stream.FrameCodec.Wire.{Decoded, Extends, Takes}
use v3mtp.Stream.FrameCodec.Abridged.Laws.{
  decode_abridged-Extends, decode_abridged-Takes, decode_abridged-encode_abridged,
}
use v3mtp.Stream.FrameCodec.Intermediate.Laws.{
  decode_intermediate-Extends, decode_intermediate-Takes, decode_intermediate-encode_intermediate,
}
use v3mtp.Stream.FrameCodec.Secure.Laws.{
  decode_secure-Extends, decode_secure-Takes, decode_secure-encode_secure,
}

-- The frames that a codec can carry: no simple ACK, and a payload of a length that its header can
-- state and its peer accepts.
abbrev pub FitsTag : ProtoTag → ℕ → Type 0
FitsTag abridged n = (n % 4 ≡ 0) × (n / 4 < 2 ^ 24)
FitsTag intermediate n = n < 2 ^ 31
FitsTag secure n = (n % 4 ≡ 0) × (0 < n) × (n + 3 < 2 ^ 31)

abbrev pub Sendable : {source : Source} → FrameCodec source → Frame → Type 0
Sendable codec frame =
    (frame.meta.simple_ack ≡ false)
    × (length frame.payload + 3 ≤ codec.max_frame_size)
    × FitsTag codec.proto_tag (length frame.payload)

-- What a frame carries to the other side.
abbrev pub content : Frame → List ℕ × Bool
content frame = (frame.payload, frame.meta.quickack)

module _ (source : Source) where
  abbrev decode : FrameCodec source → List ℕ → Decoded
  decode = FrameCodec.decode source

  pub decode-Extends :
      (codec : FrameCodec source) (src more : List ℕ)
      → Extends (decode codec src) more (decode codec (src ++ more))
  unfolding FrameCodec.decode
  decode-Extends codec src more = by_tag codec.proto_tag
    where
      by_tag :
          (t : ProtoTag)
          → Extends
              (FrameCodec.decode_as t src codec.max_frame_size)
              more
              (FrameCodec.decode_as t (src ++ more) codec.max_frame_size)
      by_tag abridged = decode_abridged-Extends src more codec.max_frame_size
      by_tag intermediate = decode_intermediate-Extends src more codec.max_frame_size
      by_tag secure = decode_secure-Extends src more codec.max_frame_size

  pub decode-Takes :
      (codec : FrameCodec source) (src : List ℕ) → Takes src codec.max_frame_size (decode codec src)
  unfolding FrameCodec.decode
  decode-Takes codec src = by_tag codec.proto_tag
    where
      by_tag :
          (t : ProtoTag)
          → Takes src codec.max_frame_size (FrameCodec.decode_as t src codec.max_frame_size)
      by_tag abridged = decode_abridged-Takes src codec.max_frame_size
      by_tag intermediate = decode_intermediate-Takes src codec.max_frame_size
      by_tag secure = decode_secure-Takes src codec.max_frame_size

  -- One frame, sent by a codec and read back by one with the same tag and limit.
  pub record Carried (codec : FrameCodec source) (frame : Frame) (dst : List ℕ) : Type 0 where
    pub sent : List ℕ
    pub got : Frame
    pub same : content got ≡ content frame
    pub done : (FrameCodec.encode source codec frame dst).0 ≡ ok tt
    pub written : (FrameCodec.encode source codec frame dst).1 ≡ dst ++ sent
    pub read : (rest : List ℕ) → decode codec (sent ++ rest) ≡ (ok (some got), rest)

module _ (source : Source) where
  Carried-abridged :
      (max : ℕ) (rng : SecureRandom source) (frame : Frame) (dst : List ℕ)
      → Sendable {source = source}
          (record { proto_tag = abridged; max_frame_size = max; rng = rng })
          frame
      → Carried source (record { proto_tag = abridged; max_frame_size = max; rng = rng }) frame dst
  unfolding FrameCodec.encode FrameCodec.decode
  Carried-abridged max rng frame dst (plain, fits, (aligned, small)) =
      let (sent, e, read) =
        decode_abridged-encode_abridged frame dst max plain aligned small (omega arith) in
      record {
        sent = sent;
        got = _;
        same = refl;
        done = ap (λ r. r.0) e;
        written = ap (λ r. r.1) e;
        read = read;
      }

  Carried-intermediate :
      (max : ℕ) (rng : SecureRandom source) (frame : Frame) (dst : List ℕ)
      → Sendable {source = source}
          (record { proto_tag = intermediate; max_frame_size = max; rng = rng })
          frame
      → Carried source
          (record { proto_tag = intermediate; max_frame_size = max; rng = rng })
          frame
          dst
  unfolding FrameCodec.encode FrameCodec.decode
  Carried-intermediate max rng frame dst (plain, fits, small) =
      let (sent, e, read) =
        decode_intermediate-encode_intermediate frame dst max plain small (omega arith) in
      record {
        sent = sent;
        got = _;
        same = refl;
        done = ap (λ r. r.0) e;
        written = ap (λ r. r.1) e;
        read = read;
      }

  Carried-secure :
      (max : ℕ) (rng : SecureRandom source) (frame : Frame) (dst : List ℕ)
      → Sendable {source = source}
          (record { proto_tag = secure; max_frame_size = max; rng = rng })
          frame
      → Carried source (record { proto_tag = secure; max_frame_size = max; rng = rng }) frame dst
  unfolding FrameCodec.encode FrameCodec.decode
  Carried-secure max rng frame dst (plain, fits, (aligned, pos, small)) =
      let (sent, n, lo, hi, size, done, written, read) =
        decode_secure-encode_secure source frame dst rng max plain aligned pos small fits in
      record { sent = sent; got = _; same = refl; done = done; written = written; read = read }

  pub encode-Carried :
      (codec : FrameCodec source) (frame : Frame) (dst : List ℕ)
      → Sendable codec frame
      → Carried source codec frame dst
  encode-Carried codec frame dst h = by_tag codec.proto_tag h
    where
      by_tag :
          (t : ProtoTag)
          → Sendable {source = source} (record codec { proto_tag = t }) frame
          → Carried source (record codec { proto_tag = t }) frame dst
      by_tag abridged = Carried-abridged codec.max_frame_size codec.rng frame dst
      by_tag intermediate = Carried-intermediate codec.max_frame_size codec.rng frame dst
      by_tag secure = Carried-secure codec.max_frame_size codec.rng frame dst
