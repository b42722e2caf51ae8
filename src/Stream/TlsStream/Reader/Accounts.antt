-- ===== src/Stream/TlsStream/Reader/Accounts.antt =====
-- What the answers of a poll say of the reader: the events that are still to come, before and after.
use v3mtp.Prelude.{ℕ, ◌+◌, ◌*◌, ◌≤◌, ◌<◌, ◌≡◌, ◌⊎◌, List, [], ◌∷◌, ◌++◌, map, length}
use v3mtp.Stream.Io.{Poll, pending, failed, ready, AsyncRead}
use v3mtp.Stream.State.Header
use v3mtp.Stream.State.Header.{HeaderBuffer}
use v3mtp.Stream.State.Yield
use v3mtp.Stream.State.Yield.{YieldBuffer}
use v3mtp.Stream.TlsStream.{
  TlsReaderState, idle, reading_header, reading_body, yielding, poisoned, FakeTlsReader, Round,
  returns, goes_on,
}
use v3mtp.Stream.TlsStream.Decode.{Event, byte, closed, broken, events, of_body}
use v3mtp.Stream.TlsStream.Reader.{Polled, WaitsBetween, FailsBetween}
use v3mtp.Stream.TlsStream.Reader.Headers.{IsPartial}

module _ (io : AsyncRead) where
  open io use {Input, rest}

  -- The events that a reader has still to report.
  abbrev pub coming : Input → TlsReaderState → List Event
  coming u idle = events (rest u)
  coming u (reading_header h) = events (Header.as_slice h ++ rest u)
  coming u (reading_body ty len buffer) = of_body events ty len (buffer ++ rest u)
  coming u (yielding y) = map byte (Yield.as_slice y) ++ events (rest u)
  coming u (poisoned e) = []

  abbrev pub future : FakeTlsReader io → List Event
  future r = coming r.upstream r.state

  abbrev pub IsIntact : TlsReaderState → Type 0
  IsIntact idle = Unit
  IsIntact (reading_header h) = IsPartial h
  IsIntact (reading_body ty len buffer) = length buffer ≤ len
  IsIntact (yielding y) = y.position < length y.bytes
  IsIntact (poisoned e) = ⊥

  -- The state that a poll with this answer leaves.
  abbrev pub IsLeft : Poll (List ℕ) → TlsReaderState → Type 0
  IsLeft (failed e) (poisoned e') = Unit
  IsLeft (failed e) _ = ⊥
  IsLeft pending s = IsIntact s
  IsLeft (ready bytes) s = IsIntact s

  -- What a poll into a buffer with this much room may answer, by the events before and after it,
  -- and by the polls of the upstream that led from the one before to the one after.
  abbrev pub Accounts : Input → ℕ → List Event → Poll (List ℕ) → FakeTlsReader io → Type 0
  Accounts start room before pending r = (before ≡ future r) × WaitsBetween io start r.upstream
  Accounts start room before (ready bytes) r =
      ((before ≡ map byte bytes ++ future r) × (((bytes ≡ []) → room ≡ 0) × (length bytes ≤ room)))
      ⊎ ((bytes ≡ []) × ((before ≡ closed ∷ future r) ⊎ ((before ≡ []) × (future r ≡ []))))
  Accounts start room before (failed e) r =
      (future r ≡ []) × ((before ≡ broken e ∷ []) ⊎ FailsBetween io e start r.upstream)

  -- Rounds that are left: no more than this.
  abbrev weight : TlsReaderState → ℕ
  weight idle = 1
  weight (reading_header h) = 0
  weight (reading_body ty len buffer) = 2
  weight (yielding y) = 0
  weight (poisoned e) = 0

  abbrev pub rounds_left : FakeTlsReader io → ℕ
  rounds_left r = 4 * length (rest r.upstream) + weight r.state

  abbrev pub RoundTold : Input → ℕ → List Event → ℕ → Round io → Type 0
  RoundTold start room before left (returns out r) =
      IsLeft out r.state × Accounts start room before out r
  RoundTold start room before left (goes_on r) =
      IsIntact r.state
      × ((before ≡ future r) × ((rounds_left r < left) × Polled io start r.upstream))
