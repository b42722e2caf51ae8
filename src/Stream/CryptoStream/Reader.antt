-- ===== src/Stream/CryptoStream/Reader.antt =====
-- `CryptoReader` of src/stream/crypto_stream.rs, over any upstream and any keystream.
pub mod Polls
pub mod Exact
use v3mtp.Prelude.{
  ℕ, zero, suc, ◌+◌, ◌-◌, min, Bool, true, false, List, [], ◌++◌, Option, none, some, Result, ok,
  err, ◌==◌, leb, if◌then◌else◌, length, is_empty,
}
use v3mtp.Stream.Io.{IoError, unexpected_eof, Poll, pending, failed, ready, AsyncRead}
use v3mtp.Stream.State.Yield
use v3mtp.Stream.State.Yield.{YieldBuffer}
use v3mtp.Crypto.Ctr.{apply_keystream}
use v3mtp.Stream.CryptoStream.Writer.{take_poison_error}

pub data CryptoReaderState : Type 0 where
  idle : CryptoReaderState
  yielding : YieldBuffer → CryptoReaderState
  poisoned : Option IoError → CryptoReaderState

-- What a destination of `room` bytes gets of the bytes that wait, and the state after that.
abbrev pub take_yielding : ℕ → YieldBuffer → List ℕ × CryptoReaderState
take_yielding room y =
    let (copied, y') = Yield.copy_to (min (Yield.remaining y) room) y in
    (copied, if Yield.is_empty y' then idle else yielding y')

module _ (io : AsyncRead) where
  pub record CryptoReader : Type 0 where
    pub upstream : io.Input
    pub decryptor : ℕ
    pub state : CryptoReaderState

  abbrev pub new : io.Input → ℕ → CryptoReader
  new u decryptor = record { upstream = u; decryptor = decryptor; state = idle }

  module _ (stream : ℕ → ℕ) where
    -- What is read goes through the decryptor, unless it is the end.
    abbrev pub after_read : Poll (List ℕ) → io.Input → CryptoReader → Poll (List ℕ) × CryptoReader
    after_read pending u r = (pending, record r { upstream = u })
    after_read (failed e) u r = (failed e, record r { upstream = u; state = poisoned (some e) })
    after_read (ready bytes) u r =
        if is_empty bytes then (ready [], record r { upstream = u }) else (
          ready (apply_keystream stream r.decryptor bytes),
          record r { upstream = u; decryptor = r.decryptor + length bytes },
        )

    abbrev pub poll_read_state : ℕ → CryptoReader → CryptoReaderState → Poll (List ℕ) × CryptoReader
    poll_read_state room r (poisoned e) =
        (failed (take_poison_error e), record r { state = poisoned none })
    poll_read_state room r (yielding y) =
        if room == 0
        then (ready [], r)
        else (ready (take_yielding room y).0, record r { state = (take_yielding room y).1 })
    poll_read_state room r idle =
        if room == 0
        then (ready [], r)
        else after_read (io.poll_read room r.upstream).0 (io.poll_read room r.upstream).1 r

    -- Into a buffer with this much room.
    unfoldable pub poll_read : ℕ → CryptoReader → Poll (List ℕ) × CryptoReader
    poll_read room r = poll_read_state room r r.state

    -- The loop of `read_exact_decrypt`, with the number of polls as fuel; a pending poll is made again.
    unfoldable pub read_loop :
        ℕ → ℕ → List ℕ → CryptoReader → Option (Result IoError (List ℕ) × CryptoReader)
    read_loop zero n result r = if leb n (length result) then some (ok result, r) else none
    read_loop (suc fuel) n result r =
        let p = poll_read (n - length result) r in
        elim (leb n (length result)) [
          | true ↦ some (ok result, r)
          | false ↦ elim p.0 [
            | pending ↦ read_loop fuel n result p.1
            | failed e ↦ some (err e, p.1)
            | ready got ↦ elim (is_empty got) [
              | true ↦ some (err unexpected_eof, p.1)
              | false ↦ read_loop fuel n (result ++ got) p.1
            ]
          ]
        ]

    abbrev pub exact_from :
        ℕ → ℕ → CryptoReader → CryptoReaderState → Option (Result IoError (List ℕ) × CryptoReader)
    exact_from fuel n r (poisoned e) =
        some (err (take_poison_error e), record r { state = poisoned none })
    exact_from fuel n r (yielding y) =
        read_loop fuel n (take_yielding n y).0 (record r { state = (take_yielding n y).1 })
    exact_from fuel n r idle = read_loop fuel n [] r

    unfoldable pub read_exact_decrypt :
        ℕ → ℕ → CryptoReader → Option (Result IoError (List ℕ) × CryptoReader)
    read_exact_decrypt fuel n r = exact_from fuel n r r.state

    -- `read`, with the number of polls as fuel.
    unfoldable pub read : ℕ → ℕ → CryptoReader → Option (Result IoError (List ℕ) × CryptoReader)
    read zero room r = none
    read (suc fuel) room r =
        let p = poll_read room r in
        elim p.0 [
          | pending ↦ read fuel room p.1
          | failed e ↦ some (err e, p.1)
          | ready got ↦ some (ok got, p.1)
        ]

    abbrev pub decrypt_from :
        ℕ → ℕ → CryptoReader → CryptoReaderState → Option (Result IoError (List ℕ) × CryptoReader)
    decrypt_from fuel max_size r (poisoned e) =
        some (err (take_poison_error e), record r { state = poisoned none })
    decrypt_from fuel max_size r (yielding y) =
        some (ok (take_yielding max_size y).0, record r { state = (take_yielding max_size y).1 })
    decrypt_from fuel max_size r idle = read fuel max_size r

    unfoldable pub read_decrypt :
        ℕ → ℕ → CryptoReader → Option (Result IoError (List ℕ) × CryptoReader)
    read_decrypt fuel max_size r = decrypt_from fuel max_size r r.state
