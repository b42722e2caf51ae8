-- ===== src/Stream/CryptoStream/Writer/Flush.antt =====
-- What `poll_flush_pending` leaves on the upstream and in the writer.
use v3mtp.Prelude.{
  ℕ, zero, suc, ◌+◌, ◌≤◌, ◌<◌, ◌≡◌, sym, ap, ◌∙◌, arith, true, false, List, [], ◌++◌, some,
  append_assoc, append-nil, ◌==◌, length, length-drop, take, drop, drop-all, take-append-drop,
  Bool-cases, inl, inr,
}
use v3mtp.Stream.Io.{IoError, write_zero, Poll, pending, failed, ready, AsyncWrite, Writes}
use v3mtp.Stream.TlsStream.Reader.{was_pending, was_failed, was_ready, answered}
use v3mtp.Stream.CryptoStream.Pending
use v3mtp.Stream.CryptoStream.Pending.{
  PendingCiphertext, IsBounded, advance-IsBounded, slice-advance,
}
use v3mtp.Stream.CryptoStream.Writer.{CryptoWriterState, idle, flushing, poisoned, flush_loop}

module _ (io : AsyncWrite) where
  open io use {Output, sent, writes}

  -- The state after a flush: ready, nothing waits; pending, the rest waits.
  abbrev pub FlushTold : ℕ → List ℕ → Poll (Unit {0}) → Output → CryptoWriterState → Type 0
  FlushTold max_len before (ready _) u idle = before ≡ sent u
  FlushTold max_len before pending u (flushing p) =
      (before ≡ sent u ++ Pending.pending_slice p)
      × (IsBounded max_len p × (0 < Pending.pending_len p))
  FlushTold max_len before (failed e) u (poisoned e') = (lost : List ℕ) × (before ≡ sent u ++ lost)
  FlushTold max_len before _ u _ = ⊥

  module _ (rounds : ℕ) (u : Output) (p : PendingCiphertext)
      (more : Pending.is_drained p ≡ false) where
    pub flush_waits :
        (io.poll_write (Pending.pending_slice p) u).0 ≡ pending
        → flush_loop io (suc rounds) u p
          ≡ (pending, ((io.poll_write (Pending.pending_slice p) u).1, flushing p))
    unfolding flush_loop
    flush_waits e = rw (more, e, flush_loop)

    pub flush_fails :
        (err : IoError)
        → (io.poll_write (Pending.pending_slice p) u).0 ≡ failed err
        → flush_loop io (suc rounds) u p
          ≡ (failed err, ((io.poll_write (Pending.pending_slice p) u).1, poisoned (some err)))
    unfolding flush_loop
    flush_fails err e = rw (more, e, flush_loop)

    pub flush_stuck :
        (n : ℕ)
        → (io.poll_write (Pending.pending_slice p) u).0 ≡ ready n
        → (n == 0) ≡ true
        → flush_loop io (suc rounds) u p ≡ (
          failed write_zero,
          ((io.poll_write (Pending.pending_slice p) u).1, poisoned (some write_zero)),
        )
    unfolding flush_loop
    flush_stuck n e nothing = rw (more, e, nothing, flush_loop)

    pub flush_moves :
        (n : ℕ)
        → (io.poll_write (Pending.pending_slice p) u).0 ≡ ready n
        → (n == 0) ≡ false
        → flush_loop io (suc rounds) u p
          ≡ flush_loop io rounds (io.poll_write (Pending.pending_slice p) u).1 (Pending.advance n p)
    unfolding flush_loop
    flush_moves n e some_written = rw (more, e, some_written, flush_loop)

  pub flush_done :
      (rounds : ℕ) (u : Output) (p : PendingCiphertext)
      → Pending.is_drained p ≡ true
      → flush_loop io rounds u p ≡ (ready tt, (u, idle))
  unfolding flush_loop
  flush_done zero u p e = rw (e, flush_loop)
  flush_done (suc rounds) u p e = rw (e, flush_loop)

  drained_slice :
      (p : PendingCiphertext) → Pending.is_drained p ≡ true → Pending.pending_slice p ≡ []
  drained_slice p e = drop-all p.pos p.buf (ground (arith, e))

  abbrev pub Told : ℕ → List ℕ → Poll (Unit {0}) × (Output × CryptoWriterState) → Type 0
  Told max_len before r = FlushTold max_len before r.0 r.1.0 r.1.1

  -- Rounds enough for what waits: each that goes on sends some of it.
  pub flush_loop_lem :
      (rounds max_len : ℕ) (before : List ℕ) (u : Output) (p : PendingCiphertext)
      → Pending.pending_len p ≤ rounds
      → IsBounded max_len p
      → before ≡ sent u ++ Pending.pending_slice p
      → Told max_len before (flush_loop io rounds u p)
  flush_loop_lem zero max_len before u p few b e =
      let none_left : Pending.is_drained p ≡ true = ground (arith, few) in
      rw (flush_done zero u p none_left)
        (e ∙ ap (λ xs. sent u ++ xs) (drained_slice p none_left) ∙ append-nil (sent u))
  flush_loop_lem (suc rounds) max_len before u p few b e =
      elim (Bool-cases (Pending.is_drained p)) [
        | inl none_left ↦
            rw (flush_done (suc rounds) u p none_left)
              (e ∙ ap (λ xs. sent u ++ xs) (drained_slice p none_left) ∙ append-nil (sent u))
        | inr more ↦
            let slice = Pending.pending_slice p in
            let r = io.poll_write slice u in
            let law : Writes slice (sent u) (sent r.1) r.0 = writes slice u in
            elim (answered r.0) [
              | was_pending q ↦
                  rw (flush_waits rounds u p more q)
                    (e ∙ ap (λ xs. xs ++ slice) (sym (rw q at law)), (b, ground (arith, more)))
              | was_failed err q ↦
                  rw (flush_fails rounds u p more err q)
                    (slice, e ∙ ap (λ xs. xs ++ slice) (sym (rw q at law)))
              | was_ready n q ↦
                  let law' : Writes slice (sent u) (sent r.1) (ready n) = rw q at law in
                  let split : before ≡ sent r.1 ++ drop n slice =
                    e
                    ∙ ap (λ xs. sent u ++ xs) (sym (take-append-drop n slice))
                    ∙ sym (append_assoc (sent u) (take n slice) (drop n slice))
                    ∙ ap (λ xs. xs ++ drop n slice) (sym law'.0) in
                  elim (Bool-cases (n == 0)) [
                    | inl nothing ↦
                        rw (flush_stuck rounds u p more n q nothing) (drop n slice, split)
                    | inr some_written ↦
                        let fits : p.pos + n ≤ length p.buf =
                          omega (arith, law'.1, length-drop p.pos p.buf, b.within) in
                        let moved = slice-advance n p fits in
                        let pos : 0 < n = ground (arith, some_written) in
                        rw (flush_moves rounds u p more n q some_written) (
                          flush_loop_lem rounds max_len before r.1 (Pending.advance n p)
                            (omega (
                              arith,
                              few,
                              ap length moved,
                              length-drop n slice,
                              length-drop p.pos p.buf,
                              b.within,
                              length-drop (Pending.advance n p).pos (Pending.advance n p).buf,
                              pos,
                            ))
                            (advance-IsBounded max_len n p b)
                            (split ∙ ap (λ xs. sent r.1 ++ xs) (sym moved)))
                  ]
            ]
      ]
