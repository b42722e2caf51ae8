-- ===== src/Stream/TlsStream/Examples.antt =====
-- A record that arrives in pieces, and one that is sent in pieces.
use v3mtp.Prelude.{ℕ, ◌≡◌, refl, arith, List, [], ◌∷◌, ◌++◌, none, some, ok, length}
use v3mtp.Stream.State.Write
use v3mtp.Stream.TlsStream.{FakeTlsReader, to_bytes, new, parse, validate, dispose}
use v3mtp.Stream.TlsStream.Sample.{drip, drip-Willing, stammer, narrow}
use v3mtp.Stream.TlsStream.Reader.Accounts.{future}
use v3mtp.Stream.TlsStream.Reader.Polls.{poll_read, PollTold, poll_read-PollTold}
use v3mtp.Stream.TlsStream.Reader.Histories.{PollsTold, polls_lem}
use v3mtp.Stream.TlsStream.Reader.Exact.{read_exact, ExactTold, read_exact_lem, leading}
use v3mtp.Stream.TlsStream.Decode.{decode}
use v3mtp.Stream.TlsStream.Writer
use v3mtp.Stream.TlsStream.Writer.{
  poll_write, poll_flush, opening, poll_flush_record_inner, build_record,
}
use v3mtp.Stream.TlsStream.Writer.Histories.{Call, write, flush, run, Holds, run-Holds}
use v3mtp.Stream.TlsStream.Writer.Records.{Carries-nil}
use v3mtp.Stream.TlsStream.Writer.Tunnel.{read_exact-run}

-- A record of two bytes, in which the upstream is not ready twice.
abbrev stammered : FakeTlsReader stammer
stammered =
    new stammer (some 23 ∷ some 3 ∷ none ∷ some 3 ∷ some 0 ∷ some 2 ∷ some 70 ∷ none ∷ some 71 ∷ [])

poll_read-PollTold_example :
    PollTold stammer stammered.upstream 1 (future stammer stammered) (poll_read stammer 1 stammered)
poll_read-PollTold_example = poll_read-PollTold stammer 1 stammered tt

polls_lem_example : PollsTold stammer (future stammer stammered) [] (1 ∷ 1 ∷ 4 ∷ 4 ∷ []) stammered
polls_lem_example = polls_lem stammer (1 ∷ 1 ∷ 4 ∷ 4 ∷ []) stammered tt

abbrev dripping : FakeTlsReader drip
dripping = new drip (23 ∷ 3 ∷ 3 ∷ 0 ∷ 4 ∷ 70 ∷ 71 ∷ 72 ∷ 73 ∷ [])

read_exact_lem_example :
    ExactTold drip 3 (leading (future drip dripping)) (read_exact drip 3 3 dripping)
unfolding decode parse validate dispose
read_exact_lem_example = read_exact_lem drip 3 dripping drip-Willing tt (omega arith)

run-Holds_example :
    Holds narrow
      ([] ++ (run narrow (write (7 ∷ 8 ∷ []) ∷ []) (Writer.new narrow [])).0)
      (run narrow (write (7 ∷ 8 ∷ []) ∷ []) (Writer.new narrow [])).1.upstream
      (run narrow (write (7 ∷ 8 ∷ []) ∷ []) (Writer.new narrow [])).1.state
run-Holds_example = run-Holds narrow (write (7 ∷ 8 ∷ []) ∷ []) [] (Writer.new narrow []) Carries-nil

abbrev calls : List Call
calls = write (7 ∷ 8 ∷ 9 ∷ []) ∷ flush ∷ []

abbrev wire : List ℕ
wire = 23 ∷ 3 ∷ 3 ∷ 0 ∷ 3 ∷ 7 ∷ 8 ∷ 9 ∷ []

read_exact-run_example :
    (r : FakeTlsReader drip) × (read_exact drip
        (length (run narrow calls (Writer.new narrow [])).0)
        (length (run narrow calls (Writer.new narrow [])).0)
        (new drip wire)
      ≡ some (ok (run narrow calls (Writer.new narrow [])).0, r))
unfolding run poll_write poll_flush opening poll_flush_record_inner build_record to_bytes
    Write.extend Write.advance
read_exact-run_example = read_exact-run narrow drip [] wire calls refl refl refl drip-Willing
