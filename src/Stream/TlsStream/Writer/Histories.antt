-- ===== src/Stream/TlsStream/Writer/Histories.antt =====
-- Any calls on a writer, against the bytes that it accepted.
use v3mtp.Prelude.{
  ℕ, ◌+◌, ◌≤◌, min, ◌≡◌, refl, sym, ap, ◌∙◌, arith, List, [], ◌∷◌, ◌++◌, append_assoc, append-nil,
  ◌==◌, ==_iff, length, length-take, length-drop, take, drop, take-append-drop, take-all, is_empty,
  is_empty_pos, Bool-cases, inl, inr,
}
use mathlib.Core.Path.{subst}
use v3mtp.Stream.Io.{Poll, pending, failed, ready, AsyncWrite, Writes}
use v3mtp.Stream.State.Write
use v3mtp.Stream.State.Write.{WriteBuffer, pending-extend}
use v3mtp.Stream.TlsStream.{to_bytes, max_tls_payload}
use v3mtp.Stream.TlsStream.Writer.{
  TlsWriterState, idle, writing_record, poisoned, build_record, FlushResult, flush_complete,
  flush_pending, flush_error, poll_flush_record_inner, FakeTlsWriter, Opening, returns, opens,
  opening, after_flush, keep, after_write, write_opened, flush_opened, poll_write, poll_flush,
  max_pending_write,
}
use v3mtp.Stream.TlsStream.Writer.Flush.{FlushTold, poll_flush_record_inner_lem}
use v3mtp.Stream.TlsStream.Writer.Records.{Carries, Carries-append, build_record-Carries}

-- What `poll_write` took of its buffer.
abbrev pub accepted : List ℕ → Poll ℕ → List ℕ
accepted buf (ready n) = take n buf
accepted buf _ = []

pub data Call : Type 0 where
  write : List ℕ → Call
  flush : Call

length-build_record : (chunk : List ℕ) → length (build_record chunk) ≡ 5 + length chunk
unfolding build_record to_bytes
length-build_record chunk = omega arith

module _ (io : AsyncWrite) where
  open io use {Output, sent, writes, sent-poll_flush}

  -- The calls in order, with the bytes that they took.
  unfoldable pub run : List Call → FakeTlsWriter io → List ℕ × FakeTlsWriter io
  run [] w = ([], w)
  run (write buf ∷ calls) w =
      let (out, w') = poll_write io buf w in
      let (rest, w'') = run calls w' in (accepted buf out ++ rest, w'')
  run (flush ∷ calls) w = run calls (poll_flush io w).1

  -- The records of `payload` are sent, but for what waits; after a failure the end may be lost.
  abbrev pub Holds : List ℕ → Output → TlsWriterState → Type 0
  Holds payload u idle = Carries (sent u) payload
  Holds payload u (writing_record w size) = Carries (sent u ++ Write.pending w) payload
  Holds payload u (poisoned e) = (lost : List ℕ) × Carries (sent u ++ lost) payload

  abbrev IsUnready : {A : Type 0} → Poll A → Type 0
  IsUnready (ready n) = ⊥
  IsUnready pending = Unit
  IsUnready (failed e) = Unit

  abbrev OpeningTold : {A : Type 0} → List ℕ → Opening io A → Type 0
  OpeningTold payload (returns out w) = IsUnready out × Holds payload w.upstream w.state
  OpeningTold payload (opens u) = Carries (sent u) payload

  flushed_told :
      (A : Type 0) (payload before : List ℕ) (result : FlushResult) (u : Output) (w : WriteBuffer)
      (size : ℕ)
      → Carries before payload
      → FlushTold io result before u w
      → OpeningTold payload (after_flush io {A = A} result u w size)
  flushed_told A payload before flush_complete u w size h told =
      subst (λ xs. Carries xs payload) told h
  flushed_told A payload before flush_pending u w size h told =
      (tt, subst (λ xs. Carries xs payload) told h)
  flushed_told A payload before (flush_error e) u w size h told =
      (tt, (told.0, subst (λ xs. Carries xs payload) told.1 h))

  opening_told :
      (A : Type 0) (payload : List ℕ) (u : Output) (s : TlsWriterState)
      → Holds payload u s
      → OpeningTold payload (opening io {A = A} u s)
  unfolding opening
  opening_told A payload u idle h = h
  opening_told A payload u (writing_record w size) h =
      flushed_told A payload (sent u ++ Write.pending w)
        (poll_flush_record_inner io (length (Write.pending w)) u w).0
        (poll_flush_record_inner io (length (Write.pending w)) u w).1.0
        (poll_flush_record_inner io (length (Write.pending w)) u w).1.1 size h
        (poll_flush_record_inner_lem io (length (Write.pending w)) (sent u ++ Write.pending w) u w
          (omega arith) refl)
  opening_told A payload u (poisoned e) h = (tt, h)

  -- What is kept of a record fits into its buffer.
  keep_told :
      (payload left : List ℕ) (u : Output) (size : ℕ)
      → length left ≤ max_pending_write
      → Carries (sent u ++ left) payload
      → Holds payload u (keep left size)
  keep_told payload left u size fits h =
      subst (λ xs. Carries (sent u ++ xs) payload)
        (sym (pending-extend left max_pending_write fits)) h

  chunk_told :
      (payload buf record_data : List ℕ) (size : ℕ) (answer : Poll ℕ) (u u' : Output)
      → length record_data ≤ max_pending_write
      → Carries (sent u) payload
      → Carries (sent u ++ record_data) (payload ++ take size buf)
      → Writes record_data (sent u) (sent u') answer
      → let r = after_write io answer u' record_data size in
        Holds (payload ++ accepted buf r.0) r.1.upstream r.1.state
  chunk_told payload buf record_data size pending u u' fits h k law =
      keep_told (payload ++ take size buf) record_data u' size fits
        (subst (λ xs. Carries (xs ++ record_data) (payload ++ take size buf)) (sym law) k)
  chunk_told payload buf record_data size (failed e) u u' fits h k law =
      ([], rw (append-nil (sent u'), law, append-nil payload) h)
  chunk_told payload buf record_data size (ready n) u u' fits h k law =
      let all : sent u' ++ drop n record_data ≡ sent u ++ record_data =
        ap (λ xs. xs ++ drop n record_data) law.0
        ∙ append_assoc (sent u) (take n record_data) (drop n record_data)
        ∙ ap (λ xs. sent u ++ xs) (take-append-drop n record_data) in
      elim (Bool-cases (n == length record_data)) [
        | inl whole ↦
            rw
              (
                whole,
                law.0,
                take-all n record_data (omega (arith, (==_iff n (length record_data)).0 whole)),
              )
              k
        | inr part ↦ rw part (
            keep_told (payload ++ take size buf) (drop n record_data) u' size
              (omega (arith, fits, length-drop n record_data))
              (subst (λ xs. Carries xs (payload ++ take size buf)) (sym all) k))
      ]

  write_told :
      (payload buf : List ℕ) (o : Opening io ℕ)
      → OpeningTold payload o
      → let r = write_opened io buf o in Holds (payload ++ accepted buf r.0) r.1.upstream r.1.state
  write_told payload buf (returns pending w) h = rw (append-nil payload) h.1
  write_told payload buf (returns (failed e) w) h = rw (append-nil payload) h.1
  write_told payload buf (returns (ready n) w) h = absurd h.0
  write_told payload buf (opens u) h = elim (Bool-cases (is_empty buf)) [
    | inl nothing ↦ rw (nothing, append-nil payload) h
    | inr some_bytes ↦
        let k = min (length buf) max_tls_payload in
        let chunk = take k buf in
        let size : length chunk ≡ k = omega (arith, length-take k buf) in
        rw some_bytes (
          chunk_told payload buf (build_record chunk) (length chunk)
            (io.poll_write (build_record chunk) u).0 u (io.poll_write (build_record chunk) u).1
            (omega (arith, size, length-build_record chunk)) h
            (rw size (
              Carries-append (sent u) (build_record chunk) payload chunk h (
                build_record-Carries chunk (omega (arith, size, is_empty_pos buf some_bytes))
                  (omega (arith, size)))))
            (writes (build_record chunk) u))
  ]

  flush_told :
      (payload : List ℕ) (o : Opening io (Unit {0}))
      → OpeningTold payload o
      → let r = flush_opened io o in Holds payload r.1.upstream r.1.state
  flush_told payload (returns out w) h = h.1
  flush_told payload (opens u) h = rw (sent-poll_flush u) h

  -- After any writes and flushes: where the writer has not failed, what the upstream has and what
  -- waits in the writer are records that decode to the bytes that the writer held before and those
  -- that it accepted, in order. Where it has failed, what the upstream has is a beginning of such
  -- records, whose end may be lost.
  pub run-Holds :
      (calls : List Call) (payload : List ℕ) (w : FakeTlsWriter io)
      → Holds payload w.upstream w.state
      → let r = run calls w in Holds (payload ++ r.0) r.1.upstream r.1.state
  unfolding run poll_write poll_flush
  run-Holds [] payload w h = rw (append-nil payload) h
  run-Holds (write buf ∷ calls) payload w h =
      let r = poll_write io buf w in
      let told : Holds (payload ++ accepted buf r.0) r.1.upstream r.1.state =
        write_told payload buf (opening io w.upstream w.state)
          (opening_told ℕ payload w.upstream w.state h) in
      rw (sym (append_assoc payload (accepted buf r.0) (run calls r.1).0))
        (run-Holds calls (payload ++ accepted buf r.0) r.1 told)
  run-Holds (flush ∷ calls) payload w h = run-Holds calls payload (poll_flush io w).1 (
      flush_told payload (opening io w.upstream w.state)
        (opening_told Unit payload w.upstream w.state h))
