-- ===== src/Stream/TlsStream/Writer/Flush.antt =====
-- What the writer leaves on the upstream and in its buffer, call by call.
use v3mtp.Prelude.{
  ℕ, zero, suc, ◌≤◌, ◌≡◌, sym, ap, ◌∙◌, arith, true, false, List, ◌++◌, append_assoc, append-nil,
  ◌==◌, length, length-drop, take, drop, take-append-drop, Bool-cases, inl, inr,
}
use v3mtp.Stream.Io.{IoError, write_zero, pending, failed, ready, AsyncWrite, Writes}
use v3mtp.Stream.State.Write
use v3mtp.Stream.State.Write.{
  WriteBuffer, is_empty-pending, pending-advance, length-pending-advance,
}
use v3mtp.Stream.TlsStream.Reader.{was_pending, was_failed, was_ready, answered}
use v3mtp.Stream.TlsStream.Writer.{
  FlushResult, flush_complete, flush_pending, flush_error, poll_flush_record_inner,
}

module _ (io : AsyncWrite) where
  open io use {Output, sent, writes}

  -- What is left of the bytes that were to be sent.
  abbrev pub FlushTold : FlushResult → List ℕ → Output → WriteBuffer → Type 0
  FlushTold flush_complete before u w = before ≡ sent u
  FlushTold flush_pending before u w = before ≡ sent u ++ Write.pending w
  FlushTold (flush_error e) before u w = (lost : List ℕ) × (before ≡ sent u ++ lost)

  module _ (rounds : ℕ) (u : Output) (w : WriteBuffer) (more : Write.is_empty w ≡ false) where
    flush_waits :
        (io.poll_write (Write.pending w) u).0 ≡ pending
        → poll_flush_record_inner io (suc rounds) u w
          ≡ (flush_pending, ((io.poll_write (Write.pending w) u).1, w))
    unfolding poll_flush_record_inner
    flush_waits e = rw (more, e, poll_flush_record_inner)

    flush_fails :
        (err : IoError)
        → (io.poll_write (Write.pending w) u).0 ≡ failed err
        → poll_flush_record_inner io (suc rounds) u w
          ≡ (flush_error err, ((io.poll_write (Write.pending w) u).1, w))
    unfolding poll_flush_record_inner
    flush_fails err e = rw (more, e, poll_flush_record_inner)

    flush_stuck :
        (n : ℕ)
        → (io.poll_write (Write.pending w) u).0 ≡ ready n
        → (n == 0) ≡ true
        → poll_flush_record_inner io (suc rounds) u w
          ≡ (flush_error write_zero, ((io.poll_write (Write.pending w) u).1, w))
    unfolding poll_flush_record_inner
    flush_stuck n e nothing = rw (more, e, nothing, poll_flush_record_inner)

    flush_moves :
        (n : ℕ)
        → (io.poll_write (Write.pending w) u).0 ≡ ready n
        → (n == 0) ≡ false
        → poll_flush_record_inner io (suc rounds) u w
          ≡ poll_flush_record_inner io rounds
              (io.poll_write (Write.pending w) u).1
              (Write.advance n w)
    unfolding poll_flush_record_inner
    flush_moves n e some_written = rw (more, e, some_written, poll_flush_record_inner)

  flush_done :
      (rounds : ℕ) (u : Output) (w : WriteBuffer)
      → Write.is_empty w ≡ true
      → poll_flush_record_inner io rounds u w ≡ (flush_complete, (u, w))
  unfolding poll_flush_record_inner
  flush_done zero u w e = rw (e, poll_flush_record_inner)
  flush_done (suc rounds) u w e = rw (e, poll_flush_record_inner)

  pub poll_flush_record_inner_lem :
      (rounds : ℕ) (before : List ℕ) (u : Output) (w : WriteBuffer)
      → length (Write.pending w) ≤ rounds
      → before ≡ sent u ++ Write.pending w
      → FlushTold
          (poll_flush_record_inner io rounds u w).0
          before
          (poll_flush_record_inner io rounds u w).1.0
          (poll_flush_record_inner io rounds u w).1.1
  poll_flush_record_inner_lem zero before u w few e =
      let none_left : Write.is_empty w ≡ true =
        ground (arith, few, length-drop w.position w.buffer) in
      rw (flush_done zero u w none_left)
        (e ∙ ap (λ xs. sent u ++ xs) (is_empty-pending w none_left) ∙ append-nil (sent u))
  poll_flush_record_inner_lem (suc rounds) before u w few e = elim (Bool-cases (Write.is_empty w)) [
    | inl none_left ↦
        rw (flush_done (suc rounds) u w none_left)
          (e ∙ ap (λ xs. sent u ++ xs) (is_empty-pending w none_left) ∙ append-nil (sent u))
    | inr more ↦
        let r = io.poll_write (Write.pending w) u in
        let law : Writes (Write.pending w) (sent u) (sent r.1) r.0 = writes (Write.pending w) u in
        elim (answered r.0) [
          | was_pending p ↦
              rw (flush_waits rounds u w more p)
                (e ∙ ap (λ xs. xs ++ Write.pending w) (sym (rw p at law)))
          | was_failed err p ↦
              rw (flush_fails rounds u w more err p)
                (Write.pending w, e ∙ ap (λ xs. xs ++ Write.pending w) (sym (rw p at law)))
          | was_ready n p ↦
              let law' : Writes (Write.pending w) (sent u) (sent r.1) (ready n) = rw p at law in
              let split : before ≡ sent r.1 ++ drop n (Write.pending w) =
                e
                ∙ ap (λ xs. sent u ++ xs) (sym (take-append-drop n (Write.pending w)))
                ∙ sym (append_assoc (sent u) (take n (Write.pending w)) (drop n (Write.pending w)))
                ∙ ap (λ xs. xs ++ drop n (Write.pending w)) (sym law'.0) in
              elim (Bool-cases (n == 0)) [
                | inl nothing ↦
                    rw (flush_stuck rounds u w more n p nothing) (drop n (Write.pending w), split)
                | inr some_written ↦ rw (flush_moves rounds u w more n p some_written) (
                    poll_flush_record_inner_lem rounds before r.1 (Write.advance n w)
                      (omega (
                        arith,
                        few,
                        length-pending-advance n w more (ground (arith, some_written)),
                      ))
                      (split ∙ ap (λ xs. sent r.1 ++ xs) (sym (pending-advance n w))))
              ]
        ]
  ]
