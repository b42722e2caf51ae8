-- ===== src/Stream/CryptoStream/Stack.antt =====
-- The streams of a FakeTLS client, one upon the other: a `CryptoWriter` over a `FakeTlsWriter`, and a
-- `CryptoReader` over a `FakeTlsReader`.
use v3mtp.Prelude.{
  ℕ, suc, ◌<◌, ◌≡◌, refl, sym, ap, ◌∙◌, false, List, [], ◌++◌, map, append-nil, some, ok, length,
  All, IsByte,
}
use mathlib.Core.Path.{subst}
use v3mtp.Stream.Io.{Poll, ready, AsyncRead, AsyncWrite}
use v3mtp.Stream.TlsStream
use v3mtp.Stream.TlsStream.Decode.{byte, events}
use v3mtp.Stream.TlsStream.Reader.Accounts.{future, coming}
use v3mtp.Stream.TlsStream.Reader.Exact.{Willing, leading, leading-map}
use v3mtp.Stream.TlsStream.Reader.Upstream.{TlsInput, fake_tls_reader, fake_tls_reader-Willing}
use v3mtp.Stream.TlsStream.Writer.Histories.{Call, Holds}
use v3mtp.Stream.TlsStream.Writer.Records.{events-Carries}
use v3mtp.Stream.TlsStream.Writer.Upstream.{
  TlsOutput, open_output, fake_tls_writer, poll_flush_idle,
}
use v3mtp.Stream.CryptoStream.Writer
use v3mtp.Stream.CryptoStream.Writer.{poll_flush, CryptoWriter}
use v3mtp.Stream.CryptoStream.Writer.Upkeep.{run_keeps, poll_flush_keeps, poll_flush_ready}
use v3mtp.Stream.CryptoStream.Reader.{CryptoReader, new, read_exact_decrypt}
use v3mtp.Stream.CryptoStream.Tunnel.{written, read_exact_decrypt-run}

module _ (out : AsyncWrite) (stream : ℕ → ℕ) (u : out.Output) (empty : out.sent u ≡ [])
    (start max_pending_write : ℕ) (calls : List Call) where
  -- After the calls on a new writer, and a flush.
  abbrev pub written_tls : List ℕ × CryptoWriter (fake_tls_writer out)
  written_tls =
      written (fake_tls_writer out) stream (open_output out u empty) start max_pending_write calls

  abbrev pub flushed_tls : Poll (Unit {0}) × CryptoWriter (fake_tls_writer out)
  flushed_tls = poll_flush (fake_tls_writer out) written_tls.1

  IsOpen : TlsOutput out → Type 0
  IsOpen o = o.is_shut ≡ false

  still_open : flushed_tls.1.upstream.is_shut ≡ false
  unfolding IsOpen
  still_open =
      poll_flush_keeps (fake_tls_writer out) stream IsOpen (λ bytes o e. e) (λ o e. e) written_tls.1
        (run_keeps (fake_tls_writer out) stream IsOpen (λ bytes o e. e) (λ o e. e) calls
          (Writer.new (fake_tls_writer out) (open_output out u empty) start max_pending_write) refl)

  all_idle :
      flushed_tls.0 ≡ ready tt
      → flushed_tls.1.upstream.writer.state ≡ v3mtp.Stream.TlsStream.Writer.idle
  all_idle done =
      let (o, (is_ready, last)) = poll_flush_ready (fake_tls_writer out) written_tls.1 done in
      ap (λ x. x.writer.state) last ∙ poll_flush_idle out o.writer is_ready

  -- What is on the wire are records of the ciphertext.
  pub wire_events :
      flushed_tls.0 ≡ ready tt
      → events (out.sent flushed_tls.1.upstream.writer.upstream)
        ≡ map byte flushed_tls.1.upstream.taken ++ []
  wire_events done =
      let o = flushed_tls.1.upstream in
      events-Carries (out.sent o.writer.upstream) o.taken
        (subst (λ s. Holds out o.taken o.writer.upstream s) (all_idle done) (o.held still_open))

  module _ (io : AsyncRead) (willing : Willing io) where
    -- A payload that was written to a `CryptoWriter` over a `FakeTlsWriter`, in any calls, and flushed, is what
    -- `read_exact_decrypt` reads from a `CryptoReader` over a `FakeTlsReader` at the other end, where the reader starts at the
    -- same position of the same keystream, and the bytes of the wire come in pieces of any sizes, from an
    -- upstream that is never pending and never fails.
    pub read_exact_decrypt-fake_tls :
        (i : TlsInput io willing.1)
        → flushed_tls.0 ≡ ready tt
        → i.reader.state ≡ v3mtp.Stream.TlsStream.idle
        → io.rest i.reader.upstream ≡ out.sent flushed_tls.1.upstream.writer.upstream
        → ((k : ℕ) → stream k < 256)
        → All IsByte written_tls.0
        → (r : CryptoReader (fake_tls_reader io willing.1)) × (read_exact_decrypt
              (fake_tls_reader io willing.1)
              stream
              (suc (length written_tls.0))
              (length written_tls.0)
              (new (fake_tls_reader io willing.1) i start)
            ≡ some (ok written_tls.0, r))
    read_exact_decrypt-fake_tls i done fresh carried small bytes =
        let taken = flushed_tls.1.upstream.taken in
        let on_wire : future io i.reader ≡ map byte taken ++ [] =
          ap (coming io i.reader.upstream) fresh ∙ ap events carried ∙ wire_events done in
        let to_read : taken ≡ leading (future io i.reader) =
          sym (ap leading on_wire ∙ leading-map taken [] ∙ append-nil taken) in
        read_exact_decrypt-run (fake_tls_writer out) stream (open_output out u empty) start
          max_pending_write calls (fake_tls_reader io willing.1) i done to_read small bytes
          (fake_tls_reader-Willing io willing.1 willing)
