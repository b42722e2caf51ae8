-- ===== src/Stream/CryptoStream/Writer.antt =====
-- `CryptoWriter` of src/stream/crypto_stream.rs, over any upstream and any keystream. `scratch` is
-- empty between the calls and is not kept.
pub mod Flush
pub mod Chunks
pub mod Histories
pub mod Upkeep
use v3mtp.Prelude.{
  ℕ, zero, suc, ◌+◌, ◌*◌, min, max, Bool, true, false, List, [], ◌∷◌, ◌++◌, Option, none, some,
  Result, ok, err, ◌==◌, if◌then◌else◌, length, take, drop, is_empty,
}
use v3mtp.Stream.Io.{
  IoError, write_zero, would_block, other, Poll, pending, failed, ready, AsyncWrite,
}
use v3mtp.Crypto.Ctr.{apply_keystream}
use v3mtp.Stream.CryptoStream.Pending
use v3mtp.Stream.CryptoStream.Pending.{PendingCiphertext}

abbrev pub default_max_pending_write : ℕ
default_max_pending_write = 64 * 1024

pub data CryptoWriterState : Type 0 where
  idle : CryptoWriterState
  flushing : PendingCiphertext → CryptoWriterState
  poisoned : Option IoError → CryptoWriterState

-- The error that a poisoned stream gives, once.
abbrev pub take_poison_error : Option IoError → IoError
take_poison_error (some e) = e
take_poison_error none = other

abbrev pub pending_len : CryptoWriterState → ℕ
pending_len (flushing p) = Pending.pending_len p
pending_len _ = 0

-- How much of a buffer that is not empty is taken while the upstream blocks.
abbrev pub select_to_accept_for_buffering : CryptoWriterState → ℕ → ℕ → ℕ
select_to_accept_for_buffering (flushing p) buf_len max_pending =
    min buf_len (Pending.remaining_capacity p)
select_to_accept_for_buffering idle buf_len max_pending = min buf_len max_pending
select_to_accept_for_buffering (poisoned e) buf_len max_pending = 0

module _ (io : AsyncWrite) where
  open io use {Output}

  pub record CryptoWriter : Type 0 where
    pub upstream : Output
    pub encryptor : ℕ
    pub state : CryptoWriterState
    pub max_pending_write : ℕ

  abbrev pub new : Output → ℕ → ℕ → CryptoWriter
  new u encryptor max_pending_write = record {
    upstream = u;
    encryptor = encryptor;
    state = idle;
    max_pending_write =
        max (if max_pending_write == 0 then default_max_pending_write else max_pending_write)
          (4 * 1024);
  }

  -- The loop of `poll_flush_pending`. The rounds are counted: each that goes on sends a byte at least.
  unfoldable pub flush_loop :
      ℕ → Output → PendingCiphertext → Poll (Unit {0}) × (Output × CryptoWriterState)
  flush_loop zero u p =
      if Pending.is_drained p then (ready tt, (u, idle)) else (pending, (u, flushing p))
  flush_loop (suc rounds) u p =
      let answer = io.poll_write (Pending.pending_slice p) u in
      elim (Pending.is_drained p) [
        | true ↦ (ready tt, (u, idle))
        | false ↦ elim answer.0 [
          | pending ↦ (pending, (answer.1, flushing p))
          | failed e ↦ (failed e, (answer.1, poisoned (some e)))
          | ready n ↦ elim (n == 0) [
            | true ↦ (failed write_zero, (answer.1, poisoned (some write_zero)))
            | false ↦ flush_loop rounds answer.1 (Pending.advance n p)
          ]
        ]
      ]

  unfoldable pub poll_flush_pending :
      Output → CryptoWriterState → Poll (Unit {0}) × (Output × CryptoWriterState)
  poll_flush_pending u (poisoned e) = (failed (take_poison_error e), (u, poisoned none))
  poll_flush_pending u idle = (ready tt, (u, idle))
  poll_flush_pending u (flushing p) = flush_loop (Pending.pending_len p) u p

  -- What the upstream did not take of the ciphertext waits; the encryptor has moved in any case.
  abbrev pub after_write : Poll ℕ → Output → List ℕ → CryptoWriter → Poll ℕ × CryptoWriter
  after_write pending u ciphertext w = (
    ready (length ciphertext),
    record w {
      upstream = u;
      encryptor = w.encryptor + length ciphertext;
      state = flushing (Pending.replace_with ciphertext (Pending.new w.max_pending_write));
    },
  )
  after_write (failed e) u ciphertext w = (
    failed e,
    record w {
      upstream = u;
      encryptor = w.encryptor + length ciphertext;
      state = poisoned (some e);
    },
  )
  after_write (ready n) u ciphertext w =
      let moved : CryptoWriter = record w {
        upstream = u;
        encryptor = w.encryptor + length ciphertext;
      } in
      if n == 0
      then (failed write_zero, record moved { state = poisoned (some write_zero) })
      else if n == length ciphertext
      then (ready (length ciphertext), record moved { state = idle })
      else (
        ready (length ciphertext),
        record moved {
          state =
              flushing (Pending.replace_with (drop n ciphertext) (Pending.new w.max_pending_write));
        },
      )

  abbrev pub flush_upstream :
      CryptoWriter → Poll (Unit {0}) × (Output × CryptoWriterState) → Poll (Unit {0}) × CryptoWriter
  flush_upstream w (pending, (u, s)) = (pending, record w { upstream = u; state = s })
  flush_upstream w (failed e, (u, s)) = (failed e, record w { upstream = u; state = s })
  flush_upstream w (ready _, (u, s)) =
      let (out, u') = io.poll_flush u in (out, record w { upstream = u'; state = s })

  -- Poisoned, it fails with the same error as `poll_flush_pending`.
  unfoldable pub poll_flush : CryptoWriter → Poll (Unit {0}) × CryptoWriter
  poll_flush w = flush_upstream w (poll_flush_pending w.upstream w.state)

  -- Whatever the flush answers, the upstream is shut down.
  unfoldable pub poll_shutdown : CryptoWriter → Poll (Unit {0}) × CryptoWriter
  poll_shutdown w =
      let (flushed, (u, s)) = poll_flush_pending w.upstream w.state in
      let (out, u') = io.poll_shutdown u in (out, record w { upstream = u'; state = s })

  module _ (stream : ℕ → ℕ) where
    abbrev pub after_push :
        ℕ
        → Output
        → PendingCiphertext
        → CryptoWriter
        → Result IoError (ℕ × PendingCiphertext)
        → Poll ℕ × CryptoWriter
    after_push n u p w (ok (encryptor, p')) =
        (ready n, record w { upstream = u; encryptor = encryptor; state = flushing p' })
    after_push n u p w (err would_block) = (pending, record w { upstream = u; state = flushing p })
    after_push n u p w (err e) = (failed e, record w { upstream = u; state = flushing p })

    abbrev pub push_accepted :
        List ℕ → Output → PendingCiphertext → CryptoWriter → Poll ℕ × CryptoWriter
    push_accepted plaintext u p w =
        after_push (length plaintext) u p w (Pending.push_encrypted stream w.encryptor plaintext p)

    -- The upstream blocks, and the state is what the flush left: as much as there is room for is
    -- encrypted behind what waits.
    abbrev pub buffer_more :
        List ℕ → Output → CryptoWriterState → CryptoWriter → Poll ℕ × CryptoWriter
    buffer_more buf u (poisoned e) w = (pending, record w { upstream = u; state = poisoned e })
    buffer_more buf u idle w =
        let n = select_to_accept_for_buffering idle (length buf) w.max_pending_write in
        if n == 0
        then (pending, record w { upstream = u; state = idle })
        else push_accepted (take n buf) u (Pending.new w.max_pending_write) w
    buffer_more buf u (flushing p) w =
        let n = select_to_accept_for_buffering (flushing p) (length buf) w.max_pending_write in
        if n == 0
        then (pending, record w { upstream = u; state = flushing p })
        else push_accepted (take n buf) u p w

    -- Nothing waits: `encrypt_into_scratch`, and on to the upstream.
    abbrev pub write_through : List ℕ → Output → CryptoWriter → Poll ℕ × CryptoWriter
    write_through buf u w =
        let plaintext = take (min (length buf) w.max_pending_write) buf in
        let ciphertext = apply_keystream stream w.encryptor plaintext in
        let (answer, u') = io.poll_write ciphertext u in after_write answer u' ciphertext w

    abbrev pub write_flushed :
        List ℕ
        → CryptoWriter
        → Poll (Unit {0}) × (Output × CryptoWriterState)
        → Poll ℕ × CryptoWriter
    write_flushed buf w (ready _, (u, s)) = write_through buf u w
    write_flushed buf w (failed e, (u, s)) = (failed e, record w { upstream = u; state = s })
    write_flushed buf w (pending, (u, s)) = buffer_more buf u s w

    abbrev pub write_unless_poisoned :
        List ℕ → CryptoWriter → CryptoWriterState → Poll ℕ × CryptoWriter
    write_unless_poisoned buf w (poisoned e) =
        (failed (take_poison_error e), record w { state = poisoned none })
    write_unless_poisoned buf w idle =
        if is_empty buf then (ready 0, w) else write_through buf w.upstream w
    write_unless_poisoned buf w (flushing p) =
        if is_empty buf
        then (ready 0, w)
        else write_flushed buf w (poll_flush_pending w.upstream (flushing p))

    unfoldable pub poll_write : List ℕ → CryptoWriter → Poll ℕ × CryptoWriter
    poll_write buf w = write_unless_poisoned buf w w.state
