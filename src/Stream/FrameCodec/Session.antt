-- ===== src/Stream/FrameCodec/Session.antt =====
-- A whole conversation in one direction: frames written into one buffer, and the decoder called
-- until they are all read.
use v3mtp.Prelude.{
  ℕ, zero, suc, ◌≡◌, refl, sym, ap, ap₂, ◌∙◌, List, [], ◌∷◌, ◌++◌, Option, none, some, ok, err,
  length, map, All, append-nil, append_assoc,
}
use mathlib.Core.Path.{fun_ext}
use mathlib.Core.Option
use v3mtp.Crypto.Random.{Source}
use v3mtp.Stream.Frame.{Frame}
use v3mtp.Stream.FrameCodec
use v3mtp.Stream.FrameCodec.{FrameCodec}
use v3mtp.Stream.FrameCodec.Wire.{Decoded}
use v3mtp.Stream.FrameCodec.Laws.{Sendable, content, encode-Carried}

module _ (source : Source) where
  abbrev pub send_frames : FrameCodec source → List Frame → List ℕ → List ℕ
  send_frames codec [] dst = dst
  send_frames codec (f ∷ fs) dst =
      send_frames (FrameCodec.encode source codec f dst).2 fs
        (FrameCodec.encode source codec f dst).1

  -- The frame of a call and the buffer behind it, if it gave one.
  abbrev taken : Decoded → Option (Frame × List ℕ)
  taken (ok none, rest) = none
  taken (ok (some f), rest) = some (f, rest)
  taken (err e, rest) = none

  abbrev then_more :
      Option (Frame × List ℕ)
      → (List ℕ → Option (List Frame × List ℕ))
      → Option (List Frame × List ℕ)
  then_more none more = none
  then_more (some (f, rest)) more = Option.map (λ p. (f ∷ p.0, p.1)) (more rest)

  -- `n` calls of the decoder; `none` if one of them gives no frame.
  abbrev pub receive : FrameCodec source → ℕ → List ℕ → Option (List Frame × List ℕ)
  receive codec zero src = some ([], src)
  receive codec (suc n) src =
      then_more (taken (FrameCodec.decode source codec src)) (receive codec n)

  receive-suc :
      (codec : FrameCodec source) (n : ℕ) (src : List ℕ) {f : Frame} {mid : List ℕ}
      {fs : List Frame} {last : List ℕ}
      → FrameCodec.decode source codec src ≡ (ok (some f), mid)
      → receive codec n mid ≡ some (fs, last)
      → receive codec (suc n) src ≡ some (f ∷ fs, last)
  receive-suc codec n src p q = rw (p, q)

  -- The generator that `encode` moves on is not the decoder's concern.
  receive-encode :
      (codec : FrameCodec source) (g : Frame) (dst : List ℕ) (n : ℕ) (src : List ℕ)
      → receive (FrameCodec.encode source codec g dst).2 n src ≡ receive codec n src
  unfolding FrameCodec.encode FrameCodec.decode
  receive-encode codec g dst zero src = refl
  receive-encode codec g dst (suc n) src =
      let next = (FrameCodec.encode source codec g dst).2 in
      let same : receive next n ≡ receive codec n = fun_ext (receive-encode codec g dst n) in
      ap (then_more (taken (FrameCodec.decode source codec src))) same

  -- The frames of a list on the wire, behind whatever `dst` holds.
  record Sent (codec : FrameCodec source) (frames : List Frame) (dst : List ℕ) : Type 0 where
    wire : List ℕ
    got : List Frame
    same : map content got ≡ map content frames
    written : send_frames codec frames dst ≡ dst ++ wire
    read : (rest : List ℕ) → receive codec (length frames) (wire ++ rest) ≡ some (got, rest)

  send_frames-Sent :
      (frames : List Frame) (codec : FrameCodec source) (dst : List ℕ)
      → All (Sendable codec) frames
      → Sent codec frames dst
  send_frames-Sent [] codec dst h = record {
    wire = [];
    got = [];
    same = refl;
    written = sym (append-nil dst);
    read = λ rest. refl;
  }
  send_frames-Sent (f ∷ fs) codec dst h =
      let one = encode-Carried source codec f dst h.0 in
      let more =
        send_frames-Sent fs (FrameCodec.encode source codec f dst).2
          (FrameCodec.encode source codec f dst).1 (unfold FrameCodec.encode in h.1) in
      record {
        wire = one.sent ++ more.wire;
        got = one.got ∷ more.got;
        same = ap₂ ◌∷◌ one.same more.same;
        written = more.written ∙ ap (λ d. d ++ more.wire) one.written ∙ append_assoc dst _ _;
        read = λ rest. rw (append_assoc one.sent more.wire rest) (
            receive-suc codec (length fs) _ (one.read (more.wire ++ rest))
              (sym (receive-encode codec f dst (length fs) (more.wire ++ rest)) ∙ more.read rest));
      }

  -- Frames that the codec can carry arrive in order, each with its payload and its quick-ack flag,
  -- and what follows them stays in the buffer.
  pub receive-send_frames :
      (codec : FrameCodec source) (frames : List Frame) (rest : List ℕ)
      → All (Sendable codec) frames
      → (got : List Frame) × (receive codec (length frames) (send_frames codec frames [] ++ rest)
          ≡ some (got, rest))
        × (map content got ≡ map content frames)
  receive-send_frames codec frames rest h =
      let s = send_frames-Sent frames codec [] h in (s.got, rw s.written (s.read rest), s.same)
