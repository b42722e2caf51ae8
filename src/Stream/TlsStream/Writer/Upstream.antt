-- ===== src/Stream/TlsStream/Writer/Upstream.antt =====
-- A `FakeTlsWriter` as the upstream of another stream: it keeps the contract of `AsyncWrite`, where
-- what it has taken counts as sent.
use v3mtp.Prelude.{
  ℕ, ◌≤◌, min, ◌≡◌, refl, sym, arith, Bool, true, false, List, [], ◌∷◌, ◌++◌, append-nil, ◌==◌,
  length, length-take, take, is_empty, Bool-cases, inl, inr,
}
use mathlib.Core.Path.{subst}
use v3mtp.Stream.Io.{Poll, pending, failed, ready, AsyncWrite, Writes}
use v3mtp.Stream.State.Write
use v3mtp.Stream.State.Write.{WriteBuffer}
use v3mtp.Stream.TlsStream.{max_tls_payload}
use v3mtp.Stream.TlsStream.Writer.{
  TlsWriterState, idle, writing_record, poisoned, FlushResult, flush_complete, flush_pending,
  flush_error, FakeTlsWriter, Opening, returns, opens, opening, after_flush, after_write,
  build_record, write_opened, flush_opened, poll_write, poll_flush, poll_shutdown, new,
  poll_flush_record_inner,
}
use v3mtp.Stream.TlsStream.Writer.Records.{Carries, Carries-nil}
use v3mtp.Stream.TlsStream.Writer.Histories.{write, flush, run, Holds, run-Holds, accepted}

-- No more is taken than there is.
abbrev pub Fits : List ℕ → Poll ℕ → Type 0
Fits buf (ready n) = n ≤ length buf
Fits buf _ = Unit

module _ (io : AsyncWrite) where
  abbrev IsUnready : {A : Type 0} → Opening io A → Type 0
  IsUnready (returns (ready n) w) = ⊥
  IsUnready _ = Unit

  after_flush-IsUnready :
      (A : Type 0) (result : FlushResult) (u : io.Output) (w : WriteBuffer) (size : ℕ)
      → IsUnready (after_flush io {A = A} result u w size)
  after_flush-IsUnready A flush_complete u w size = tt
  after_flush-IsUnready A flush_pending u w size = tt
  after_flush-IsUnready A (flush_error e) u w size = tt

  opening-IsUnready :
      (A : Type 0) (u : io.Output) (s : TlsWriterState) → IsUnready (opening io {A = A} u s)
  unfolding opening
  opening-IsUnready A u idle = tt
  opening-IsUnready A u (poisoned e) = tt
  opening-IsUnready A u (writing_record w size) =
      let r = poll_flush_record_inner io (length (Write.pending w)) u w in
      after_flush-IsUnready A r.0 r.1.0 r.1.1 size

  after_write-Fits :
      (answer : Poll ℕ) (u : io.Output) (record_data buf : List ℕ) (size : ℕ)
      → size ≤ length buf
      → Fits buf (after_write io answer u record_data size).0
  after_write-Fits pending u record_data buf size h = h
  after_write-Fits (failed e) u record_data buf size h = tt
  after_write-Fits (ready n) u record_data buf size h =
      elim (Bool-cases (n == length record_data)) [ inl whole ↦ rw whole h | inr part ↦ rw part h ]

  write_opened-Fits :
      (buf : List ℕ) (o : Opening io ℕ) → IsUnready o → Fits buf (write_opened io buf o).0
  write_opened-Fits buf (returns pending w) h = tt
  write_opened-Fits buf (returns (failed e) w) h = tt
  write_opened-Fits buf (returns (ready n) w) h = absurd h
  write_opened-Fits buf (opens u) h = elim (Bool-cases (is_empty buf)) [
    | inl nothing ↦ rw nothing (omega arith)
    | inr some_bytes ↦
        let chunk = take (min (length buf) max_tls_payload) buf in
        rw some_bytes (
          after_write-Fits (io.poll_write (build_record chunk) u).0
            (io.poll_write (build_record chunk) u).1 (build_record chunk) buf (length chunk)
            (omega (arith, length-take (min (length buf) max_tls_payload) buf)))
  ]

  pub poll_write-Fits : (buf : List ℕ) (w : FakeTlsWriter io) → Fits buf (poll_write io buf w).0
  unfolding poll_write
  poll_write-Fits buf w =
      write_opened-Fits buf (opening io w.upstream w.state) (opening-IsUnready ℕ w.upstream w.state)

  flush_opened-idle :
      (o : Opening io (Unit {0}))
      → IsUnready o
      → (flush_opened io o).0 ≡ ready tt
      → (flush_opened io o).1.state ≡ idle
  flush_opened-idle (returns pending w) h e = absurd (ground (arith, e))
  flush_opened-idle (returns (failed k) w) h e = absurd (ground (arith, e))
  flush_opened-idle (returns (ready n) w) h e = absurd h
  flush_opened-idle (opens u) h e = refl

  -- A flush that is ready leaves nothing to be written.
  pub poll_flush_idle :
      (w : FakeTlsWriter io) → (poll_flush io w).0 ≡ ready tt → (poll_flush io w).1.state ≡ idle
  unfolding poll_flush
  poll_flush_idle w e =
      flush_opened-idle (opening io w.upstream w.state) (opening-IsUnready Unit w.upstream w.state)
        e

  -- With what it has taken, and whether it was shut down: that drops what still waits.
  pub record TlsOutput : Type 0 where
    pub taken : List ℕ
    pub writer : FakeTlsWriter io
    pub is_shut : Bool
    pub held : is_shut ≡ false → Holds io taken writer.upstream writer.state

  abbrev pub open_output : (u : io.Output) → io.sent u ≡ [] → TlsOutput
  open_output u e = record {
    taken = [];
    writer = new io u;
    is_shut = false;
    held = λ _. subst (λ xs. Carries xs []) (sym e) Carries-nil;
  }

  pub write_held :
      (buf : List ℕ) (o : TlsOutput)
      → let r = poll_write io buf o.writer in
        o.is_shut ≡ false → Holds io (o.taken ++ accepted buf r.0) r.1.upstream r.1.state
  unfolding run
  write_held buf o e =
      let r = poll_write io buf o.writer in
      subst (λ xs. Holds io (o.taken ++ xs) r.1.upstream r.1.state) (append-nil (accepted buf r.0))
        (run-Holds io (write buf ∷ []) o.taken o.writer (o.held e))

  pub flush_held :
      (o : TlsOutput)
      → let r = poll_flush io o.writer in
        o.is_shut ≡ false → Holds io o.taken r.1.upstream r.1.state
  unfolding run
  flush_held o e =
      let r = poll_flush io o.writer in
      subst (λ xs. Holds io xs r.1.upstream r.1.state) (append-nil o.taken)
        (run-Holds io (flush ∷ []) o.taken o.writer (o.held e))

  pub shut_held :
      (taken : List ℕ) (w : FakeTlsWriter io) → true ≡ false → Holds io taken w.upstream w.state
  shut_held taken w e = absurd (ground (arith, e))

  pub poll_write-Writes :
      (buf before : List ℕ) (answer : Poll ℕ)
      → Fits buf answer
      → Writes buf before (before ++ accepted buf answer) answer
  poll_write-Writes buf before pending h = append-nil before
  poll_write-Writes buf before (failed e) h = append-nil before
  poll_write-Writes buf before (ready n) h = (refl, h)

  abbrev pub fake_tls_writer : AsyncWrite
  fake_tls_writer = record {
    Output = TlsOutput;
    poll_write = λ buf o.
        let r = poll_write io buf o.writer in
        (
          r.0,
          record {
            taken = o.taken ++ accepted buf r.0;
            writer = r.1;
            is_shut = o.is_shut;
            held = write_held buf o;
          },
        );
    poll_flush = λ o.
        let r = poll_flush io o.writer in
        (r.0, record { taken = o.taken; writer = r.1; is_shut = o.is_shut; held = flush_held o });
    poll_shutdown = λ o.
        let r = poll_shutdown io o.writer in
        (
          r.0,
          record { taken = o.taken; writer = r.1; is_shut = true; held = shut_held o.taken r.1 },
        );
    sent = λ o. o.taken;
    writes = λ buf o.
        poll_write-Writes buf o.taken (poll_write io buf o.writer).0 (poll_write-Fits buf o.writer);
    sent-poll_flush = λ o. refl;
    sent-poll_shutdown = λ o. refl;
  }
