-- ===== src/Stream/TlsStream/Writer.antt =====
-- `FakeTlsWriter` of src/stream/tls_stream.rs, over any upstream.
pub mod Flush
pub mod Records
pub mod Histories
pub mod Upstream
pub mod Tunnel
use v3mtp.Prelude.{
  ℕ, zero, suc, ◌+◌, ◌%◌, ◌^◌, ◌*◌, min, Bool, true, false, List, [], ◌∷◌, ◌++◌, Option, none, some,
  leb, ◌==◌, if◌then◌else◌, length, take, drop, is_empty,
}
use v3mtp.Stream.Io.{IoError, write_zero, Poll, pending, failed, ready, AsyncWrite}
use v3mtp.Stream.State.Write
use v3mtp.Stream.State.Write.{WriteBuffer}
use v3mtp.Stream.TlsStream.{
  TlsRecordHeader, to_bytes, tls_version, tls_record_application, max_tls_payload, stored,
}

abbrev pub max_pending_write : ℕ
max_pending_write = 64 * 1024

pub data TlsWriterState : Type 0 where
  idle : TlsWriterState
  writing_record : WriteBuffer → ℕ → TlsWriterState
  poisoned : Option IoError → TlsWriterState

unfoldable pub build_record : List ℕ → List ℕ
build_record chunk =
    to_bytes (record {
      record_type = tls_record_application;
      version = tls_version;
      length = length chunk % 2 ^ 16;
    })
    ++ chunk

pub data FlushResult : Type 0 where
  flush_complete : FlushResult
  flush_pending : FlushResult
  flush_error : IoError → FlushResult

-- What is left of a record waits in a buffer.
abbrev pub keep : List ℕ → ℕ → TlsWriterState
keep left size = writing_record (Write.extend left (Write.with_max_size max_pending_write)).1 size

module _ (io : AsyncWrite) where
  open io use {Output}

  -- The rounds are counted: each one that goes on writes a byte at least.
  unfoldable pub poll_flush_record_inner :
      ℕ → Output → WriteBuffer → FlushResult × (Output × WriteBuffer)
  poll_flush_record_inner zero u w =
      (if Write.is_empty w then flush_complete else flush_pending, (u, w))
  poll_flush_record_inner (suc rounds) u w =
      let answer = io.poll_write (Write.pending w) u in
      elim (Write.is_empty w) [
        | true ↦ (flush_complete, (u, w))
        | false ↦ elim answer.0 [
          | pending ↦ (flush_pending, (answer.1, w))
          | failed e ↦ (flush_error e, (answer.1, w))
          | ready n ↦ elim (n == 0) [
            | true ↦ (flush_error write_zero, (answer.1, w))
            | false ↦ poll_flush_record_inner rounds answer.1 (Write.advance n w)
          ]
        ]
      ]

  pub record FakeTlsWriter : Type 0 where
    pub upstream : Output
    pub state : TlsWriterState

  abbrev pub new : Output → FakeTlsWriter
  new u = record { upstream = u; state = idle }

  -- The first `match` of `poll_write` and of `poll_flush`: it returns, or the state is idle.
  pub data Opening (A : Type 0) : Type 0 where
    returns : Poll A → FakeTlsWriter → Opening A
    opens : Output → Opening A

  abbrev pub after_flush : {A : Type 0} → FlushResult → Output → WriteBuffer → ℕ → Opening A
  after_flush flush_pending u w size =
      returns pending (record { upstream = u; state = writing_record w size })
  after_flush (flush_error e) u w size =
      returns (failed e) (record { upstream = u; state = poisoned (some e) })
  after_flush flush_complete u w size = opens u

  unfoldable pub opening : {A : Type 0} → Output → TlsWriterState → Opening A
  opening u (poisoned e) =
      returns (failed (stored e)) (record { upstream = u; state = poisoned none })
  opening u (writing_record w size) =
      let (result, (u', w')) = poll_flush_record_inner (length (Write.pending w)) u w in
      after_flush result u' w' size
  opening u idle = opens u

  abbrev pub after_write : Poll ℕ → Output → List ℕ → ℕ → Poll ℕ × FakeTlsWriter
  after_write (ready n) u record_data size =
      if n == length record_data
      then (ready size, record { upstream = u; state = idle })
      else (ready size, record { upstream = u; state = keep (drop n record_data) size })
  after_write (failed e) u record_data size =
      (failed e, record { upstream = u; state = poisoned (some e) })
  after_write pending u record_data size =
      (ready size, record { upstream = u; state = keep record_data size })

  abbrev pub write_chunk : List ℕ → Output → Poll ℕ × FakeTlsWriter
  write_chunk chunk u =
      let (answer, u') = io.poll_write (build_record chunk) u in
      after_write answer u' (build_record chunk) (length chunk)

  abbrev pub write_opened : List ℕ → Opening ℕ → Poll ℕ × FakeTlsWriter
  write_opened buf (returns out w) = (out, w)
  write_opened buf (opens u) =
      if is_empty buf
      then (ready 0, record { upstream = u; state = idle })
      else write_chunk (take (min (length buf) max_tls_payload) buf) u

  unfoldable pub poll_write : List ℕ → FakeTlsWriter → Poll ℕ × FakeTlsWriter
  poll_write buf w = write_opened buf (opening w.upstream w.state)

  abbrev pub flush_opened : Opening (Unit {0}) → Poll (Unit {0}) × FakeTlsWriter
  flush_opened (returns out w) = (out, w)
  flush_opened (opens u) =
      let (out, u') = io.poll_flush u in (out, record { upstream = u'; state = idle })

  unfoldable pub poll_flush : FakeTlsWriter → Poll (Unit {0}) × FakeTlsWriter
  poll_flush w = flush_opened (opening w.upstream w.state)

  abbrev pub before_shutdown : Output → TlsWriterState → Output
  before_shutdown u (writing_record w size) =
      (poll_flush_record_inner (length (Write.pending w)) u w).1.0
  before_shutdown u _ = u

  unfoldable pub poll_shutdown : FakeTlsWriter → Poll (Unit {0}) × FakeTlsWriter
  poll_shutdown w =
      let (out, u) = io.poll_shutdown (before_shutdown w.upstream w.state) in
      (out, record { upstream = u; state = idle })
