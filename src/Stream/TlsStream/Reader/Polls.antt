-- ===== src/Stream/TlsStream/Reader/Polls.antt =====
-- Whole polls of the reader, and sequences of them.
use v3mtp.Prelude.{ℕ, zero, suc, ◌<◌, ◌≡◌, refl, arith, List, Option, none, some}
use v3mtp.Stream.Io.{Poll, AsyncRead}
use v3mtp.Stream.TlsStream.{FakeTlsReader, Round, returns, goes_on, round, poll_read_loop}
use v3mtp.Stream.TlsStream.Decode.{Event}
use v3mtp.Stream.TlsStream.Reader.{Polled, at_start}
use v3mtp.Stream.TlsStream.Reader.Accounts.{
  future, IsLeft, IsIntact, Accounts, rounds_left, RoundTold,
}
use v3mtp.Stream.TlsStream.Reader.Rounds.{round-RoundTold}

module _ (io : AsyncRead) where
  open io use {Input, rest}

  -- One call of `poll_read`, with the fuel that it needs.
  unfoldable pub poll_read : ℕ → FakeTlsReader io → Option (Poll (List ℕ) × FakeTlsReader io)
  poll_read room r = poll_read_loop io (suc (rounds_left io r)) room r

  abbrev pub PollTold : Input → ℕ → List Event → Option (Poll (List ℕ) × FakeTlsReader io) → Type 0
  PollTold start room before none = ⊥
  PollTold start room before (some (out, r)) =
      IsLeft io out r.state × Accounts io start room before out r

  loop_returns :
      (fuel room : ℕ) (r r' : FakeTlsReader io) (out : Poll (List ℕ))
      → round io room r.upstream r.state ≡ returns out r'
      → poll_read_loop io (suc fuel) room r ≡ some (out, r')
  unfolding poll_read_loop
  loop_returns fuel room r r' out e = rw (e, poll_read_loop)

  loop_goes_on :
      (fuel room : ℕ) (r r' : FakeTlsReader io)
      → round io room r.upstream r.state ≡ goes_on r'
      → poll_read_loop io (suc fuel) room r ≡ poll_read_loop io fuel room r'
  unfolding poll_read_loop
  loop_goes_on fuel room r r' e = rw (e, poll_read_loop)

  loop_after :
      (start : Input) (fuel room : ℕ) (r : FakeTlsReader io) (x : Round io)
      → round io room r.upstream r.state ≡ x
      → rounds_left io r < suc fuel
      → RoundTold io start room (future io r) (rounds_left io r) x
      → ((r' : FakeTlsReader io)
          → IsIntact io r'.state
          → rounds_left io r' < fuel
          → Polled io start r'.upstream
          → PollTold start room (future io r') (poll_read_loop io fuel room r'))
      → PollTold start room (future io r) (poll_read_loop io (suc fuel) room r)
  loop_after start fuel room r (returns out r') e enough told again =
      rw (loop_returns fuel room r r' out e) told
  loop_after start fuel room r (goes_on r') e enough told again =
      rw (loop_goes_on fuel room r r' e, told.1.0)
        (again r' told.0 (omega (arith, enough, told.1.1.0)) told.1.1.1)

  loop_told :
      (start : Input) (fuel room : ℕ) (r : FakeTlsReader io)
      → IsIntact io r.state
      → rounds_left io r < fuel
      → Polled io start r.upstream
      → PollTold start room (future io r) (poll_read_loop io fuel room r)
  loop_told start zero room r sound enough way = absurd (omega (arith, enough))
  loop_told start (suc fuel) room r sound enough way =
      loop_after start fuel room r (round io room r.upstream r.state) refl enough
        (round-RoundTold io start room r.upstream r.state sound way) (loop_told start fuel room)

  -- A reader that has not failed answers every poll, and the answer accounts for the difference
  -- between the events before it and the events after it: where it is pending, nothing is lost, and
  -- it polled the upstream, which was ready up to the last poll, and that one was pending; the bytes
  -- that it delivers are the next ones; it reports an end at an alert, or where nothing is left; it
  -- fails with the error that comes next, or with that of the last poll of the upstream in this call.
  pub poll_read-PollTold :
      (room : ℕ) (r : FakeTlsReader io)
      → IsIntact io r.state
      → PollTold r.upstream room (future io r) (poll_read room r)
  unfolding poll_read
  poll_read-PollTold room r sound =
      loop_told r.upstream (suc (rounds_left io r)) room r sound (omega arith) at_start
