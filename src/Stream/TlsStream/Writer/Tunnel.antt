-- ===== src/Stream/TlsStream/Writer/Tunnel.antt =====
-- A writer at one end and a reader at the other.
use v3mtp.Prelude.{
  ℕ, ◌≡◌, refl, sym, ap, ◌∙◌, arith, List, [], ◌++◌, map, append-nil, Option, none, some, Result,
  ok, err, length, take, take-all, take-length-append,
}
use v3mtp.Stream.Io.{IoError, AsyncRead, AsyncWrite}
use v3mtp.Stream.TlsStream.{FakeTlsReader}
use v3mtp.Stream.TlsStream
use v3mtp.Stream.TlsStream.Decode.{byte, events}
use v3mtp.Stream.TlsStream.Reader.Accounts.{future}
use v3mtp.Stream.TlsStream.Reader.Exact.{
  Willing, ExactTold, read_exact, read_exact_lem, leading, leading-map,
}
use v3mtp.Stream.TlsStream.Writer.{idle, new}
use v3mtp.Stream.TlsStream.Writer.Records.{Carries-nil, events-Carries}
use v3mtp.Stream.TlsStream.Writer.Histories.{Call, run, Holds, run-Holds}

module _ (out : AsyncWrite) where
  -- A writer with nothing left to write has sent records of all that it took.
  sent_events :
      (u : out.Output) (calls : List Call)
      → out.sent u ≡ []
      → (run out calls (new out u)).1.state ≡ idle
      → events (out.sent (run out calls (new out u)).1.upstream)
        ≡ map byte (run out calls (new out u)).0 ++ []
  sent_events u calls start done =
      let r = run out calls (new out u) in
      let held : Holds out r.0 r.1.upstream r.1.state =
        run-Holds out calls [] (new out u) (rw start Carries-nil) in
      events-Carries (out.sent r.1.upstream) r.0 (rw done at held)

  module _ (io : AsyncRead) where
    leading_all : (xs : List ℕ) → leading (map byte xs ++ []) ≡ xs
    leading_all xs = leading-map xs [] ∙ append-nil xs

    exactly :
        (xs : List ℕ) (n : ℕ) (result : Option (Result IoError (List ℕ) × FakeTlsReader io))
        → n ≡ length xs
        → ExactTold io n xs result
        → (r : FakeTlsReader io) × (result ≡ some (ok xs, r))
    exactly xs n none e told = absurd told
    exactly xs n (some (err k, r)) e told = absurd told
    exactly xs n (some (ok bytes, r)) e told = (
      r,
      ap (λ ys. some (ok ys, r))
          (sym (take-length-append n bytes (leading (future io r)) (sym told.0))
            ∙ ap (take n) (sym told.1.0)
            ∙ take-all n xs (omega (arith, e))),
    )

    -- What a writer took in any calls, and has sent to the last byte, is what `read_exact` reads at
    -- the other end, where the reader's upstream gives the bytes that the writer's upstream took, in
    -- pieces of any sizes, and is never pending and never fails.
    pub read_exact-run :
        (u : out.Output) (v : io.Input) (calls : List Call)
        → out.sent u ≡ []
        → (run out calls (new out u)).1.state ≡ idle
        → io.rest v ≡ out.sent (run out calls (new out u)).1.upstream
        → Willing io
        → (let sent_bytes = (run out calls (new out u)).0 in
            (r : FakeTlsReader io) × (read_exact io
                (length sent_bytes)
                (length sent_bytes)
                (TlsStream.new io v)
              ≡ some (ok sent_bytes, r)))
    read_exact-run u v calls start done wire willing =
        let xs = (run out calls (new out u)).0 in
        let all : leading (events (io.rest v)) ≡ xs =
          ap (λ ys. leading (events ys)) wire
          ∙ ap leading (sent_events u calls start done)
          ∙ leading_all xs in
        exactly xs (length xs) (read_exact io (length xs) (length xs) (TlsStream.new io v)) refl (
          rw all at
            (read_exact_lem io (length xs) (TlsStream.new io v) willing tt (rw all (omega arith))))
