-- ===== src/Stream/CryptoStream/Writer/Upkeep.antt =====
-- The upstream of a `CryptoWriter` is only ever written to and flushed: what these two keep of it, any
-- calls on the writer keep.
use v3mtp.Prelude.{
  ℕ, zero, suc, ◌≡◌, min, refl, List, [], ◌∷◌, ◌==◌, length, take, is_empty, Bool-cases, inl, inr,
  Result, ok, err, arith,
}
use v3mtp.Stream.Io.{
  IoError, invalid_data, unexpected_eof, write_zero, would_block, other, upstream, Poll, pending,
  failed, ready, AsyncWrite,
}
use v3mtp.Stream.TlsStream.Reader.{was_pending, was_failed, was_ready, answered}
use v3mtp.Stream.TlsStream.Writer.Histories.{Call, write, flush}
use v3mtp.Crypto.Ctr.{apply_keystream}
use v3mtp.Stream.CryptoStream.Pending
use v3mtp.Stream.CryptoStream.Pending.{PendingCiphertext}
use v3mtp.Stream.CryptoStream.Writer.{
  CryptoWriterState, idle, flushing, poisoned, CryptoWriter, flush_loop, poll_flush_pending,
  flush_upstream, poll_flush, after_write, after_push, buffer_more, write_through, write_flushed,
  write_unless_poisoned, poll_write,
}
use v3mtp.Stream.CryptoStream.Writer.Flush.{
  flush_waits, flush_fails, flush_stuck, flush_moves, flush_done,
}
use v3mtp.Stream.CryptoStream.Writer.Histories.{run}

module _ (io : AsyncWrite) (stream : ℕ → ℕ) (Keeps : io.Output → Type 0)
    (written_keeps : (bytes : List ℕ) (u : io.Output) → Keeps u → Keeps (io.poll_write bytes u).1)
    (flushed_keeps : (u : io.Output) → Keeps u → Keeps (io.poll_flush u).1) where
  loop_keeps :
      (rounds : ℕ) (u : io.Output) (p : PendingCiphertext)
      → Keeps u
      → Keeps (flush_loop io rounds u p).1.0
  unfolding flush_loop
  loop_keeps zero u p k = elim (Bool-cases (Pending.is_drained p)) [
    | inl drained ↦ rw drained k
    | inr more ↦ rw more k
  ]
  loop_keeps (suc rounds) u p k =
      let slice = Pending.pending_slice p in
      let k' = written_keeps slice u k in
      elim (Bool-cases (Pending.is_drained p)) [
        | inl drained ↦ rw (flush_done io (suc rounds) u p drained) k
        | inr more ↦ elim (answered (io.poll_write slice u).0) [
          | was_pending e ↦ rw (flush_waits io rounds u p more e) k'
          | was_failed x e ↦ rw (flush_fails io rounds u p more x e) k'
          | was_ready n e ↦ elim (Bool-cases (n == 0)) [
            | inl nothing ↦ rw (flush_stuck io rounds u p more n e nothing) k'
            | inr some_written ↦
                rw (flush_moves io rounds u p more n e some_written)
                  (loop_keeps rounds (io.poll_write slice u).1 (Pending.advance n p) k')
          ]
        ]
      ]

  flush_pending_keeps :
      (u : io.Output) (s : CryptoWriterState) → Keeps u → Keeps (poll_flush_pending io u s).1.0
  unfolding poll_flush_pending
  flush_pending_keeps u idle k = k
  flush_pending_keeps u (flushing p) k = loop_keeps (Pending.pending_len p) u p k
  flush_pending_keeps u (poisoned e) k = k

  after_write_keeps :
      (answer : Poll ℕ) (u : io.Output) (c : List ℕ) (w : CryptoWriter io)
      → Keeps u
      → Keeps (after_write io answer u c w).1.upstream
  after_write_keeps pending u c w k = k
  after_write_keeps (failed e) u c w k = k
  after_write_keeps (ready n) u c w k = elim (Bool-cases (n == 0)) [
    | inl nothing ↦ rw nothing k
    | inr some_written ↦ elim (Bool-cases (n == length c)) [
      | inl whole ↦ rw (some_written, whole) k
      | inr part ↦ rw (some_written, part) k
    ]
  ]

  through_keeps :
      (buf : List ℕ) (u : io.Output) (w : CryptoWriter io)
      → Keeps u
      → Keeps (write_through io stream buf u w).1.upstream
  through_keeps buf u w k =
      let c =
        apply_keystream stream w.encryptor (take (min (length buf) w.max_pending_write) buf) in
      after_write_keeps (io.poll_write c u).0 (io.poll_write c u).1 c w (written_keeps c u k)

  push_keeps :
      (n : ℕ) (u : io.Output) (p : PendingCiphertext) (w : CryptoWriter io)
      (result : Result IoError (ℕ × PendingCiphertext))
      → Keeps u
      → Keeps (after_push io stream n u p w result).1.upstream
  push_keeps n u p w (ok q) k = k
  push_keeps n u p w (err would_block) k = k
  push_keeps n u p w (err invalid_data) k = k
  push_keeps n u p w (err unexpected_eof) k = k
  push_keeps n u p w (err write_zero) k = k
  push_keeps n u p w (err other) k = k
  push_keeps n u p w (err (upstream i)) k = k

  buffer_keeps :
      (buf : List ℕ) (u : io.Output) (s : CryptoWriterState) (w : CryptoWriter io)
      → Keeps u
      → Keeps (buffer_more io stream buf u s w).1.upstream
  buffer_keeps buf u (poisoned e) w k = k
  buffer_keeps buf u idle w k =
      let n = min (length buf) w.max_pending_write in
      elim (Bool-cases (n == 0)) [
        | inl nothing ↦ rw nothing k
        | inr room ↦ rw room (
            let p = Pending.new w.max_pending_write in
            push_keeps (length (take n buf)) u p w
              (Pending.push_encrypted stream w.encryptor (take n buf) p) k)
      ]
  buffer_keeps buf u (flushing p) w k =
      let n = min (length buf) (Pending.remaining_capacity p) in
      elim (Bool-cases (n == 0)) [
        | inl nothing ↦ rw nothing k
        | inr room ↦ rw room (
            push_keeps (length (take n buf)) u p w
              (Pending.push_encrypted stream w.encryptor (take n buf) p) k)
      ]

  flushed_keeps' :
      (buf : List ℕ) (w : CryptoWriter io) (out : Poll (Unit {0})) (u : io.Output)
      (s : CryptoWriterState)
      → Keeps u
      → Keeps (write_flushed io stream buf w (out, (u, s))).1.upstream
  flushed_keeps' buf w (ready _) u s k = through_keeps buf u w k
  flushed_keeps' buf w (failed e) u s k = k
  flushed_keeps' buf w pending u s k = buffer_keeps buf u s w k

  unless_keeps :
      (buf : List ℕ) (w : CryptoWriter io) (s : CryptoWriterState)
      → Keeps w.upstream
      → Keeps (write_unless_poisoned io stream buf w s).1.upstream
  unless_keeps buf w (poisoned e) k = k
  unless_keeps buf w idle k = elim (Bool-cases (is_empty buf)) [
    | inl nothing ↦ rw nothing k
    | inr some_bytes ↦ rw some_bytes (through_keeps buf w.upstream w k)
  ]
  unless_keeps buf w (flushing p) k = elim (Bool-cases (is_empty buf)) [
    | inl nothing ↦ rw nothing k
    | inr some_bytes ↦
        let r = poll_flush_pending io w.upstream (flushing p) in
        rw some_bytes
          (flushed_keeps' buf w r.0 r.1.0 r.1.1 (flush_pending_keeps w.upstream (flushing p) k))
  ]

  poll_write_keeps :
      (buf : List ℕ) (w : CryptoWriter io)
      → Keeps w.upstream
      → Keeps (poll_write io stream buf w).1.upstream
  unfolding poll_write
  poll_write_keeps buf w k = unless_keeps buf w w.state k

  upstream_keeps :
      (w : CryptoWriter io) (out : Poll (Unit {0})) (u : io.Output) (s : CryptoWriterState)
      → Keeps u
      → Keeps (flush_upstream io w (out, (u, s))).1.upstream
  upstream_keeps w pending u s k = k
  upstream_keeps w (failed e) u s k = k
  upstream_keeps w (ready _) u s k = flushed_keeps u k

  pub poll_flush_keeps :
      (w : CryptoWriter io) → Keeps w.upstream → Keeps (poll_flush io w).1.upstream
  unfolding poll_flush
  poll_flush_keeps w k =
      let r = poll_flush_pending io w.upstream w.state in
      upstream_keeps w r.0 r.1.0 r.1.1 (flush_pending_keeps w.upstream w.state k)

  pub run_keeps :
      (calls : List Call) (w : CryptoWriter io)
      → Keeps w.upstream
      → Keeps (run io stream calls w).1.upstream
  unfolding run
  run_keeps [] w k = k
  run_keeps (write buf ∷ calls) w k =
      run_keeps calls (poll_write io stream buf w).1 (poll_write_keeps buf w k)
  run_keeps (flush ∷ calls) w k = run_keeps calls (poll_flush io w).1 (poll_flush_keeps w k)

module _ (io : AsyncWrite) where
  -- The upstream was flushed last, and was ready.
  LastFlushed : Poll (Unit {0}) × CryptoWriter io → Type 0
  LastFlushed r =
      (u : io.Output) × (((io.poll_flush u).0 ≡ ready tt) × (r.1.upstream ≡ (io.poll_flush u).1))

  flush_upstream_ready :
      (w : CryptoWriter io) (out : Poll (Unit {0})) (u : io.Output) (s : CryptoWriterState)
      → (flush_upstream io w (out, (u, s))).0 ≡ ready tt
      → LastFlushed (flush_upstream io w (out, (u, s)))
  unfolding LastFlushed
  flush_upstream_ready w pending u s e = absurd (ground (arith, e))
  flush_upstream_ready w (failed k) u s e = absurd (ground (arith, e))
  flush_upstream_ready w (ready _) u s e = (u, (e, refl))

  pub poll_flush_ready :
      (w : CryptoWriter io)
      → (poll_flush io w).0 ≡ ready tt
      → (u : io.Output) × (((io.poll_flush u).0 ≡ ready tt)
          × ((poll_flush io w).1.upstream ≡ (io.poll_flush u).1))
  unfolding poll_flush LastFlushed
  poll_flush_ready w e =
      let r = poll_flush_pending io w.upstream w.state in flush_upstream_ready w r.0 r.1.0 r.1.1 e
