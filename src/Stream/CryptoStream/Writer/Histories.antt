-- ===== src/Stream/CryptoStream/Writer/Histories.antt =====
-- Any calls on a `CryptoWriter`: what is on the upstream, and what waits in the writer, is the
-- encryption of what the writer accepted.
use v3mtp.Prelude.{
  ℕ, ◌+◌, ◌<◌, ◌≡◌, refl, sym, ap, ◌∙◌, arith, false, List, [], ◌∷◌, ◌++◌, append_assoc, append-nil,
  length, is_empty, is_empty_nil, Bool-cases, inl, inr,
}
use v3mtp.Stream.Io.{Poll, pending, failed, ready, AsyncWrite}
use v3mtp.Stream.TlsStream.Writer.Histories.{Call, write, flush, accepted}
use v3mtp.Stream.CryptoStream.Pending
use v3mtp.Stream.CryptoStream.Writer.{
  CryptoWriterState, idle, flushing, poisoned, CryptoWriter, flush_loop, poll_flush_pending,
  flush_upstream, poll_flush, write_flushed, write_unless_poisoned, poll_write,
}
use v3mtp.Stream.CryptoStream.Writer.Flush.{Told, flush_loop_lem}
use v3mtp.Stream.CryptoStream.Writer.Chunks.{
  StateIsEncrypted, IsEncrypted, WriteTold, encrypted, through_told, buffer_told,
}

module _ (io : AsyncWrite) (stream : ℕ → ℕ) where
  open io use {Output, sent, sent-poll_flush}

  -- The calls in order, with the bytes that they took.
  unfoldable pub run : List Call → CryptoWriter io → List ℕ × CryptoWriter io
  run [] w = ([], w)
  run (write buf ∷ calls) w =
      let (out, w') = poll_write io stream buf w in
      let (rest, w'') = run calls w' in (accepted buf out ++ rest, w'')
  run (flush ∷ calls) w = run calls (poll_flush io w).1

  module _ (base : List ℕ) (start max_len : ℕ) (some_room : 0 < max_len) where
    abbrev Kept : List ℕ → Output → ℕ → CryptoWriterState → Type 0
    Kept = StateIsEncrypted io stream base start max_len some_room

    abbrev IsFlushed : Poll (Unit {0}) → CryptoWriterState → Type 0
    IsFlushed (ready _) idle = Unit
    IsFlushed pending (flushing p) = Unit
    IsFlushed (failed e) (poisoned e') = Unit
    IsFlushed _ _ = ⊥

    loop-Kept :
        (payload before : List ℕ) (encryptor : ℕ) (out : Poll (Unit {0})) (u : Output)
        (s : CryptoWriterState)
        → encryptor ≡ start + length payload
        → encrypted io stream base start max_len some_room payload ≡ before
        → Told io max_len before (out, (u, s))
        → Kept payload u encryptor s × IsFlushed out s
    loop-Kept payload before k (ready _) u idle at_ e told = ((at_, e ∙ told), tt)
    loop-Kept payload before k (ready _) u (flushing p) at_ e told = absurd told
    loop-Kept payload before k (ready _) u (poisoned x) at_ e told = absurd told
    loop-Kept payload before k pending u idle at_ e told = absurd told
    loop-Kept payload before k pending u (flushing p) at_ e told =
        ((at_, (e ∙ told.0, told.1.0)), tt)
    loop-Kept payload before k pending u (poisoned x) at_ e told = absurd told
    loop-Kept payload before k (failed x) u idle at_ e told = absurd told
    loop-Kept payload before k (failed x) u (flushing p) at_ e told = absurd told
    loop-Kept payload before k (failed x) u (poisoned y) at_ e told = ((told.0, e ∙ told.1), tt)

    flush_pending_told :
        (payload : List ℕ) (u : Output) (encryptor : ℕ) (s : CryptoWriterState)
        → Kept payload u encryptor s
        → let r = poll_flush_pending io u s in
          Kept payload r.1.0 encryptor r.1.1 × IsFlushed r.0 r.1.1
    unfolding poll_flush_pending
    flush_pending_told payload u k idle h = (h, tt)
    flush_pending_told payload u k (poisoned e) h = (h, tt)
    flush_pending_told payload u k (flushing p) h =
        let r = flush_loop io (Pending.pending_len p) u p in
        loop-Kept payload (sent u ++ Pending.pending_slice p) k r.0 r.1.0 r.1.1 h.0 h.1.0 (
          flush_loop_lem io (Pending.pending_len p) max_len (sent u ++ Pending.pending_slice p) u p
            (omega arith) h.1.1 refl)

    flushed_told :
        (payload buf : List ℕ) (w : CryptoWriter io) (out : Poll (Unit {0})) (u : Output)
        (s : CryptoWriterState)
        → w.max_pending_write ≡ max_len
        → is_empty buf ≡ false
        → Kept payload u w.encryptor s
        → IsFlushed out s
        → WriteTold io stream base start max_len some_room payload buf
            (write_flushed io stream buf w (out, (u, s)))
    flushed_told payload buf w (ready _) u idle limit some_bytes h f =
        through_told io stream base start max_len some_room payload buf u w limit h.0 h.1 some_bytes
    flushed_told payload buf w (ready _) u (flushing p) limit some_bytes h f = absurd f
    flushed_told payload buf w (ready _) u (poisoned x) limit some_bytes h f = absurd f
    flushed_told payload buf w pending u idle limit some_bytes h f = absurd f
    flushed_told payload buf w pending u (flushing p) limit some_bytes h f =
        buffer_told io stream base start max_len some_room payload buf u p w limit h.0 h.1.0 h.1.1
          some_bytes
    flushed_told payload buf w pending u (poisoned x) limit some_bytes h f = absurd f
    flushed_told payload buf w (failed e) u idle limit some_bytes h f = absurd f
    flushed_told payload buf w (failed e) u (flushing p) limit some_bytes h f = absurd f
    flushed_told payload buf w (failed e) u (poisoned x) limit some_bytes h f =
        ((limit, rw (append-nil payload) h), tt)

    unless_told :
        (payload buf : List ℕ) (w : CryptoWriter io) (s : CryptoWriterState)
        → w.state ≡ s
        → w.max_pending_write ≡ max_len
        → Kept payload w.upstream w.encryptor s
        → WriteTold io stream base start max_len some_room payload buf
            (write_unless_poisoned io stream buf w s)
    unless_told payload buf w (poisoned e) is limit h = ((limit, rw (append-nil payload) h), tt)
    unless_told payload buf w idle is limit h = elim (Bool-cases (is_empty buf)) [
      | inl nothing ↦
          rw (nothing, append-nil payload, is)
            (
              (limit, h),
              (
                omega arith,
                λ pos. absurd (omega (arith, pos, ap length (is_empty_nil buf nothing))),
              ),
            )
      | inr some_bytes ↦ rw some_bytes (
          through_told io stream base start max_len some_room payload buf w.upstream w limit h.0 h.1
            some_bytes)
    ]
    unless_told payload buf w (flushing p) is limit h = elim (Bool-cases (is_empty buf)) [
      | inl nothing ↦
          rw (nothing, append-nil payload, is)
            (
              (limit, h),
              (
                omega arith,
                λ pos. absurd (omega (arith, pos, ap length (is_empty_nil buf nothing))),
              ),
            )
      | inr some_bytes ↦
          let r = poll_flush_pending io w.upstream (flushing p) in
          let t = flush_pending_told payload w.upstream w.encryptor (flushing p) h in
          rw some_bytes (flushed_told payload buf w r.0 r.1.0 r.1.1 limit some_bytes t.0 t.1)
    ]

    -- One call: what was accepted follows what was accepted before; a call that takes nothing of a buffer
    -- that is not empty has failed and left the stream poisoned, or found the pending buffer full.
    pub poll_write_lem :
        (payload buf : List ℕ) (w : CryptoWriter io)
        → IsEncrypted io stream base start max_len some_room payload w
        → WriteTold io stream base start max_len some_room payload buf (poll_write io stream buf w)
    unfolding poll_write
    poll_write_lem payload buf w h = unless_told payload buf w w.state refl h.0 h.1

    -- A flush that is ready has sent the encryption of all that was accepted.
    abbrev pub FlushedAll : List ℕ → Poll (Unit {0}) × CryptoWriter io → Type 0
    FlushedAll payload (ready _, w) =
        encrypted io stream base start max_len some_room payload ≡ sent w.upstream
    FlushedAll payload _ = Unit

    pub flushed_all :
        (payload : List ℕ) (r : Poll (Unit {0}) × CryptoWriter io)
        → FlushedAll payload r
        → r.0 ≡ ready tt
        → encrypted io stream base start max_len some_room payload ≡ sent r.1.upstream
    flushed_all payload (ready _, w) told e = told
    flushed_all payload (pending, w) told e = absurd (ground (arith, e))
    flushed_all payload (failed k, w) told e = absurd (ground (arith, e))

    upstream_told :
        (payload : List ℕ) (w : CryptoWriter io) (out : Poll (Unit {0})) (u : Output)
        (s : CryptoWriterState)
        → w.max_pending_write ≡ max_len
        → Kept payload u w.encryptor s
        → IsFlushed out s
        → let r = flush_upstream io w (out, (u, s)) in
          IsEncrypted io stream base start max_len some_room payload r.1 × FlushedAll payload r
    upstream_told payload w (ready _) u idle limit h f =
        told (io.poll_flush u).0 (io.poll_flush u).1 (sent-poll_flush u)
      where
        told :
            (answer : Poll (Unit {0})) (u' : Output)
            → sent u' ≡ sent u
            → let r : Poll (Unit {0}) × CryptoWriter io =
                (answer, record w { upstream = u'; state = idle }) in
              IsEncrypted io stream base start max_len some_room payload r.1 × FlushedAll payload r
        told (ready _) u' same = ((limit, (h.0, h.1 ∙ sym same)), h.1 ∙ sym same)
        told pending u' same = ((limit, (h.0, h.1 ∙ sym same)), tt)
        told (failed e) u' same = ((limit, (h.0, h.1 ∙ sym same)), tt)
    upstream_told payload w (ready _) u (flushing p) limit h f = absurd f
    upstream_told payload w (ready _) u (poisoned x) limit h f = absurd f
    upstream_told payload w pending u s limit h f = ((limit, h), tt)
    upstream_told payload w (failed e) u s limit h f = ((limit, h), tt)

    pub poll_flush_lem :
        (payload : List ℕ) (w : CryptoWriter io)
        → IsEncrypted io stream base start max_len some_room payload w
        → let r = poll_flush io w in
          IsEncrypted io stream base start max_len some_room payload r.1 × FlushedAll payload r
    unfolding poll_flush
    poll_flush_lem payload w h =
        let r = poll_flush_pending io w.upstream w.state in
        let t = flush_pending_told payload w.upstream w.encryptor w.state h.1 in
        upstream_told payload w r.0 r.1.0 r.1.1 h.0 t.0 t.1

    -- After any writes and flushes, the encryption of what the writer held before and of what it
    -- accepted since, in order, is on the upstream, but for what waits in the writer, which is within
    -- its limit; after a failure its end may be lost.
    pub run-IsEncrypted :
        (calls : List Call) (payload : List ℕ) (w : CryptoWriter io)
        → IsEncrypted io stream base start max_len some_room payload w
        → let r = run calls w in
          IsEncrypted io stream base start max_len some_room (payload ++ r.0) r.1
    unfolding run
    run-IsEncrypted [] payload w h = rw (append-nil payload) h
    run-IsEncrypted (write buf ∷ calls) payload w h =
        let r = poll_write io stream buf w in
        rw (sym (append_assoc payload (accepted buf r.0) (run calls r.1).0)) (
          run-IsEncrypted calls (payload ++ accepted buf r.0) r.1
            (poll_write_lem payload buf w h).0)
    run-IsEncrypted (flush ∷ calls) payload w h =
        run-IsEncrypted calls payload (poll_flush io w).1 (poll_flush_lem payload w h).0
