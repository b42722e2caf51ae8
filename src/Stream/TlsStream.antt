-- ===== src/Stream/TlsStream.antt =====
-- `FakeTlsReader` and the records of src/stream/tls_stream.rs, over any upstream. The texts of
-- errors are left out.
pub mod Decode
pub mod Reader
pub mod Writer
pub mod Sample
mod Examples
use v3mtp.Prelude.{
  ℕ, zero, suc, ◌+◌, ◌-◌, ◌*◌, ◌%◌, ◌/◌, ◌^◌, min, ◌≡◌, Bool, true, false, List, [], ◌∷◌, ◌++◌,
  Option, none, some, Result, ok, err, ltb, leb, ◌==◌, ◌=?◌, ◌&&◌, ◌||◌, not, bytes_eq,
  if◌then◌else◌, byte_at, length, is_empty,
}
use v3mtp.Stream.Io.{
  IoError, invalid_data, unexpected_eof, other, Poll, pending, failed, ready, AsyncRead,
}
use v3mtp.Stream.State.Header
use v3mtp.Stream.State.Header.{HeaderBuffer}
use v3mtp.Stream.State.Yield
use v3mtp.Stream.State.Yield.{YieldBuffer}

abbrev pub tls_version : List ℕ
tls_version = 0x03 ∷ 0x03 ∷ []

abbrev pub tls_record_handshake : ℕ
tls_record_handshake = 0x16

abbrev pub tls_record_change_cipher : ℕ
tls_record_change_cipher = 0x14

abbrev pub tls_record_application : ℕ
tls_record_application = 0x17

abbrev pub tls_record_alert : ℕ
tls_record_alert = 0x15

abbrev pub max_tls_chunk_size : ℕ
max_tls_chunk_size = 16384 + 256

abbrev pub max_tls_payload : ℕ
max_tls_payload = 16384 + 256

abbrev pub tls_header_size : ℕ
tls_header_size = 5

pub record TlsRecordHeader : Type 0 where
  pub record_type : ℕ
  pub version : List ℕ
  pub length : ℕ

unfoldable pub parse : List ℕ → Option TlsRecordHeader
parse header = some (record {
  record_type = byte_at header 0;
  version = byte_at header 1 ∷ byte_at header 2 ∷ [];
  length = byte_at header 3 * 256 + byte_at header 4;
})

unfoldable pub validate : TlsRecordHeader → Result IoError (Unit {0})
validate h =
    if not (h.version =? (0x03 ∷ 0x01 ∷ [])) && not (h.version =? tls_version)
    then err invalid_data
    else if h.record_type == tls_record_application
    then (if ltb max_tls_chunk_size h.length then err invalid_data else ok tt)
    else if ltb max_tls_payload h.length
    then err invalid_data
    else ok tt

unfoldable pub to_bytes : TlsRecordHeader → List ℕ
to_bytes h =
    h.record_type
    ∷ byte_at h.version 0
    ∷ byte_at h.version 1
    ∷ h.length / 256 % 256
    ∷ h.length % 256
    ∷ []

pub data TlsReaderState : Type 0 where
  idle : TlsReaderState
  reading_header : HeaderBuffer → TlsReaderState
  reading_body : ℕ → ℕ → List ℕ → TlsReaderState
  yielding : YieldBuffer → TlsReaderState
  poisoned : Option IoError → TlsReaderState

pub data HeaderPollResult : Type 0 where
  header_pending : HeaderPollResult
  header_eof : HeaderPollResult
  header_complete : TlsRecordHeader → HeaderPollResult
  header_error : IoError → HeaderPollResult

pub data BodyPollResult : Type 0 where
  body_pending : BodyPollResult
  body_complete : List ℕ → BodyPollResult
  body_error : IoError → BodyPollResult

-- What the `match` on the record type does with a record: it is passed over, its data is yielded,
-- the reader reports an end, or it fails.
pub data Disposition : Type 0 where
  skip : Disposition
  deliver : Disposition
  stop : Disposition
  refuse : IoError → Disposition

unfoldable pub dispose : ℕ → List ℕ → Disposition
dispose record_type payload =
    if record_type == tls_record_change_cipher
    then skip
    else if record_type == tls_record_application
    then (if is_empty payload then skip else deliver)
    else if record_type == tls_record_alert
    then stop
    else if record_type == tls_record_handshake
    then refuse invalid_data
    else refuse invalid_data

-- The `match` on the result of `TlsRecordHeader::parse`.
abbrev pub parsed : Option TlsRecordHeader → HeaderPollResult
parsed none = header_error invalid_data
parsed (some h) = header_complete h

-- An end of the input in a header.
abbrev pub header_end : HeaderBuffer → HeaderPollResult
header_end h = if is_empty (Header.as_slice h) then header_eof else header_error unexpected_eof

abbrev pub stored : Option IoError → IoError
stored none = other
stored (some e) = e

module _ (io : AsyncRead) where
  open io use {Input, poll_read}

  -- The rounds are counted: each one that goes on reads a byte at least.
  unfoldable pub poll_read_header :
      ℕ → Input → HeaderBuffer → HeaderPollResult × (Input × HeaderBuffer)
  poll_read_header zero u h =
      (if Header.is_complete h then parsed (parse h.bytes) else header_pending, (u, h))
  poll_read_header (suc rounds) u h =
      let answer = poll_read (Header.remaining h) u in
      elim (Header.is_complete h) [
        | true ↦ (parsed (parse h.bytes), (u, h))
        | false ↦ elim answer.0 [
          | pending ↦ (header_pending, (answer.1, h))
          | failed e ↦ (header_error e, (answer.1, h))
          | ready got ↦ elim (is_empty got) [
            | true ↦ (header_end h, (answer.1, h))
            | false ↦ poll_read_header rounds answer.1 (Header.receive got h)
          ]
        ]
      ]

  unfoldable pub poll_read_body : ℕ → Input → ℕ → List ℕ → BodyPollResult × (Input × List ℕ)
  poll_read_body zero u target_len buffer =
      (if leb target_len (length buffer) then body_complete buffer else body_pending, (u, buffer))
  poll_read_body (suc rounds) u target_len buffer =
      let answer = poll_read (min (target_len - length buffer) 8192) u in
      elim (leb target_len (length buffer)) [
        | true ↦ (body_complete buffer, (u, buffer))
        | false ↦ elim answer.0 [
          | pending ↦ (body_pending, (answer.1, buffer))
          | failed e ↦ (body_error e, (answer.1, buffer))
          | ready got ↦ elim (is_empty got) [
            | true ↦ (body_error unexpected_eof, (answer.1, buffer))
            | false ↦ poll_read_body rounds answer.1 target_len (buffer ++ got)
          ]
        ]
      ]

  pub record FakeTlsReader : Type 0 where
    pub upstream : Input
    pub state : TlsReaderState

  abbrev pub new : Input → FakeTlsReader
  new u = record { upstream = u; state = idle }

  -- A round of the loop of `poll_read` returns, or goes on in another state.
  pub data Round : Type 0 where
    returns : Poll (List ℕ) → FakeTlsReader → Round
    goes_on : FakeTlsReader → Round

  abbrev pub poison : Input → IoError → Round
  poison u e = returns (failed e) (record { upstream = u; state = poisoned (some e) })

  abbrev pub accept : Input → TlsRecordHeader → Result IoError (Unit {0}) → Round
  accept u h (err e) = poison u e
  accept u h (ok tt) =
      goes_on (record { upstream = u; state = reading_body h.record_type h.length [] })

  abbrev pub after_header : HeaderPollResult → Input → HeaderBuffer → Round
  after_header header_pending u h =
      returns pending (record { upstream = u; state = reading_header h })
  after_header header_eof u h = returns (ready []) (record { upstream = u; state = idle })
  after_header (header_error e) u h = poison u e
  after_header (header_complete p) u h = accept u p (validate p)

  abbrev pub after_record : Disposition → Input → List ℕ → Round
  after_record skip u payload = goes_on (record { upstream = u; state = idle })
  after_record deliver u payload =
      goes_on (record { upstream = u; state = yielding (Yield.new payload) })
  after_record stop u payload = returns (ready []) (record { upstream = u; state = idle })
  after_record (refuse e) u payload = poison u e

  abbrev pub after_body : BodyPollResult → Input → ℕ → ℕ → List ℕ → Round
  after_body body_pending u ty len buffer =
      returns pending (record { upstream = u; state = reading_body ty len buffer })
  after_body (body_error e) u ty len buffer = poison u e
  after_body (body_complete payload) u ty len buffer = after_record (dispose ty payload) u payload

  -- `room` is `buf.remaining()`.
  unfoldable pub round : ℕ → Input → TlsReaderState → Round
  round room u (poisoned e) =
      returns (failed (stored e)) (record { upstream = u; state = poisoned none })
  round room u (yielding y) =
      let (copied, y') = Yield.copy_to room y in
      if room == 0
      then returns (ready []) (record { upstream = u; state = yielding y })
      else returns (ready copied)
          (record { upstream = u; state = if Yield.is_empty y' then idle else yielding y' })
  round room u idle =
      if room == 0
      then returns (ready []) (record { upstream = u; state = idle })
      else goes_on (record { upstream = u; state = reading_header (Header.new tls_header_size) })
  round room u (reading_header h) =
      let (result, (u', h')) = poll_read_header (Header.remaining h) u h in
      after_header result u' h'
  round room u (reading_body ty len buffer) =
      let (result, (u', buffer')) = poll_read_body (len - length buffer) u len buffer in
      after_body result u' ty len buffer'

  -- The loop, on fuel.
  unfoldable pub poll_read_loop : ℕ → ℕ → FakeTlsReader → Option (Poll (List ℕ) × FakeTlsReader)
  poll_read_loop zero room r = none
  poll_read_loop (suc fuel) room r = elim (round room r.upstream r.state) [
    | returns out r' ↦ some (out, r')
    | goes_on r' ↦ poll_read_loop fuel room r'
  ]
