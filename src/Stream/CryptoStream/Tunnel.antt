-- ===== src/Stream/CryptoStream/Tunnel.antt =====
-- A `CryptoWriter` at one end and a `CryptoReader` at the other.
use v3mtp.Prelude.{
  ℕ, suc, ◌<◌, ◌≡◌, refl, sym, ap, ◌∙◌, arith, List, [], ◌++◌, append-nil, Option, none, some,
  Result, ok, err, length, take, take-all, take-length-append, All, IsByte,
}
use mathlib.Core.List.{append_cancel_left}
use v3mtp.Stream.Io.{IoError, ready, AsyncRead, AsyncWrite}
use v3mtp.Stream.TlsStream.Writer.Histories.{Call}
use v3mtp.Stream.TlsStream.Reader.Exact.{Willing}
use v3mtp.Crypto.Ctr.{apply_keystream, apply_keystream_cancel}
use v3mtp.Stream.CryptoStream.Writer
use v3mtp.Stream.CryptoStream.Writer.{poll_flush, CryptoWriter}
use v3mtp.Stream.CryptoStream.Writer.Histories.{run, run-IsEncrypted, poll_flush_lem, flushed_all}
use v3mtp.Stream.CryptoStream.Reader.{CryptoReader, new, read_exact_decrypt}
use v3mtp.Stream.CryptoStream.Reader.Exact.{ExactTold, read_exact_decrypt_lem}
use v3mtp.Stream.CryptoStream.Reader.Polls.{to_come}

module _ (io : AsyncRead) (stream : ℕ → ℕ) where
  pub exactly :
      (n : ℕ) (before : List ℕ) (result : Option (Result IoError (List ℕ) × CryptoReader io))
      → n ≡ length before
      → ExactTold io stream n before result
      → (r : CryptoReader io) × (result ≡ some (ok before, r))
  exactly n before none e told = absurd told
  exactly n before (some (err k, r)) e told = absurd (omega (arith, e, told.1))
  exactly n before (some (ok bytes, r)) e told = (
    r,
    ap (λ ys. some (ok ys, r))
        (sym (take-length-append n bytes (to_come io stream r) (sym told.0))
          ∙ ap (take n) (sym told.1.0)
          ∙ take-all n before (omega (arith, e))),
  )

module _ (out : AsyncWrite) (stream : ℕ → ℕ) (u : out.Output) (start max_pending_write : ℕ)
    (calls : List Call) where
  abbrev pub written : List ℕ × CryptoWriter out
  written = run out stream calls (Writer.new out u start max_pending_write)

  -- What is on the upstream after a flush that was ready.
  pub sent_flushed :
      (poll_flush out written.1).0 ≡ ready tt
      → out.sent (poll_flush out written.1).1.upstream
        ≡ out.sent u ++ apply_keystream stream start written.0
  unfolding apply_keystream
  sent_flushed done =
      let w = Writer.new out u start max_pending_write in
      let some_room : 0 < w.max_pending_write = omega arith in
      let held =
        run-IsEncrypted out stream (out.sent u) start w.max_pending_write some_room calls [] w
          (refl, (omega arith, append-nil (out.sent u))) in
      let told =
        poll_flush_lem out stream (out.sent u) start w.max_pending_write some_room written.0
          written.1 held in
      sym (
        flushed_all out stream (out.sent u) start w.max_pending_write some_room written.0
          (poll_flush out written.1) told.1 done)

  module _ (io : AsyncRead) where
    -- What a new writer accepted in any calls, and has flushed, is what `read_exact_decrypt` reads at the
    -- other end, where the reader starts at the same position of the same keystream, and its upstream gives the
    -- bytes that the writer's upstream took, in pieces of any sizes, and is never pending and never fails.
    pub read_exact_decrypt-run :
        (v : io.Input)
        → (poll_flush out written.1).0 ≡ ready tt
        → out.sent (poll_flush out written.1).1.upstream ≡ out.sent u ++ io.rest v
        → ((k : ℕ) → stream k < 256)
        → All IsByte written.0
        → Willing io
        → (r : CryptoReader io) × (read_exact_decrypt io stream
              (suc (length written.0))
              (length written.0)
              (new io v start)
            ≡ some (ok written.0, r))
    read_exact_decrypt-run v done carried small bytes willing =
        let n = length written.0 in
        let on_wire : io.rest v ≡ apply_keystream stream start written.0 =
          append_cancel_left (out.sent u) (io.rest v) (apply_keystream stream start written.0)
            (sym carried ∙ sent_flushed done) in
        let plain : apply_keystream stream start (io.rest v) ≡ written.0 =
          ap (apply_keystream stream start) on_wire
          ∙ apply_keystream_cancel stream start written.0 small bytes in
        let told : ExactTold io stream n written.0
            (read_exact_decrypt io stream (suc n) n (new io v start)) =
          rw plain at (read_exact_decrypt_lem io stream n (new io v start) willing tt) in
        exactly io stream n written.0 (read_exact_decrypt io stream (suc n) n (new io v start)) refl
          told
