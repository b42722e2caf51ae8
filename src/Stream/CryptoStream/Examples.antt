-- ===== src/Stream/CryptoStream/Examples.antt =====
-- A payload that is encrypted, sent in pieces, and read back; a writer whose upstream blocks.
use v3mtp.Prelude.{ℕ, suc, ◌≡◌, refl, arith, List, [], ◌∷◌, ◌++◌, some, ok, length}
use v3mtp.Stream.TlsStream.Sample.{drip, drip-Willing, narrow}
use v3mtp.Stream.TlsStream.Writer.Histories.{Call, write, flush}
use v3mtp.Stream.TlsStream
use v3mtp.Stream.TlsStream.{parse, validate, dispose}
use v3mtp.Stream.TlsStream.Decode.{decode}
use v3mtp.Stream.TlsStream.Reader.Accounts.{future}
use v3mtp.Stream.TlsStream.Reader.Upstream.{IsPlain, TlsInput, fake_tls_reader}
use v3mtp.Crypto.Ctr.{apply_keystream}
use v3mtp.Stream.CryptoStream.Pending.{advance, compact_consumed_prefix}
use v3mtp.Stream.CryptoStream.Writer
use v3mtp.Stream.CryptoStream.Writer.{
  poll_write, poll_flush, poll_flush_pending, flush_loop, CryptoWriter,
}
use v3mtp.Stream.CryptoStream.Writer.Chunks.{IsEncrypted, WriteTold}
use v3mtp.Stream.CryptoStream.Writer.Histories.{run, run-IsEncrypted, poll_write_lem}
use v3mtp.Stream.CryptoStream.Reader.{CryptoReader, new, read_exact_decrypt}
use v3mtp.Stream.CryptoStream.Reader.Exact.{ExactTold, read_exact_decrypt_lem}
use v3mtp.Stream.CryptoStream.Reader.Polls.{to_come}
use v3mtp.Stream.CryptoStream.Stack.{written_tls, read_exact_decrypt-fake_tls}
use v3mtp.Stream.CryptoStream.Tunnel.{written, read_exact_decrypt-run}

abbrev sevens : ℕ → ℕ
sevens k = 7

abbrev calls : List Call
calls = write (1 ∷ 2 ∷ 3 ∷ 4 ∷ 5 ∷ 6 ∷ []) ∷ flush ∷ []

abbrev fresh : CryptoWriter narrow
fresh = Writer.new narrow [] 0 4096

run-IsEncrypted_example :
    IsEncrypted narrow sevens [] 0 4096
      (omega arith)
      ([] ++ (run narrow sevens calls fresh).0)
      (run narrow sevens calls fresh).1
unfolding apply_keystream
run-IsEncrypted_example =
    run-IsEncrypted narrow sevens [] 0 4096 (omega arith) calls [] fresh (refl, (refl, refl))

poll_write_lem_example :
    WriteTold narrow sevens [] 0 4096
      (omega arith)
      []
      (1 ∷ 2 ∷ [])
      (poll_write narrow sevens (1 ∷ 2 ∷ []) fresh)
unfolding apply_keystream
poll_write_lem_example =
    poll_write_lem narrow sevens [] 0 4096 (omega arith) [] (1 ∷ 2 ∷ []) fresh (refl, (refl, refl))

abbrev reading : CryptoReader drip
reading = new drip (6 ∷ 5 ∷ 4 ∷ 3 ∷ 2 ∷ 1 ∷ []) 0

read_exact_decrypt_lem_example :
    ExactTold drip sevens 5
      (to_come drip sevens reading)
      (read_exact_decrypt drip sevens 6 5 reading)
read_exact_decrypt_lem_example = read_exact_decrypt_lem drip sevens 5 reading drip-Willing tt

read_exact_decrypt-run_example :
    (r : CryptoReader drip) × (read_exact_decrypt drip sevens
        (suc (length (written narrow sevens [] 0 0 calls).0))
        (length (written narrow sevens [] 0 0 calls).0)
        reading
      ≡ some (ok (written narrow sevens [] 0 0 calls).0, r))
unfolding run poll_write poll_flush poll_flush_pending flush_loop apply_keystream advance
    compact_consumed_prefix
read_exact_decrypt-run_example =
    read_exact_decrypt-run narrow sevens [] 0 0 calls drip reading.upstream refl refl
      (λ k. omega arith)
      (omega arith, (omega arith, (omega arith, (omega arith, (omega arith, (omega arith, tt))))))
      drip-Willing

-- Three bytes in one record.
abbrev three : List Call
three = write (1 ∷ 2 ∷ 3 ∷ []) ∷ []

abbrev record_wire : List ℕ
record_wire = 23 ∷ 3 ∷ 3 ∷ 0 ∷ 3 ∷ 6 ∷ 5 ∷ 4 ∷ []

wire-IsPlain : IsPlain (future drip (TlsStream.new drip record_wire))
unfolding decode parse validate dispose
wire-IsPlain = tt

abbrev wire_input : TlsInput drip drip-Willing.1
wire_input = record { reader = TlsStream.new drip record_wire; intact = tt; plain = wire-IsPlain }

read_exact_decrypt-fake_tls_example :
    (r : CryptoReader (fake_tls_reader drip drip-Willing.1)) × (read_exact_decrypt
        (fake_tls_reader drip drip-Willing.1)
        sevens
        (suc (length (written_tls narrow sevens [] refl 0 0 three).0))
        (length (written_tls narrow sevens [] refl 0 0 three).0)
        (new (fake_tls_reader drip drip-Willing.1) wire_input 0)
      ≡ some (ok (written_tls narrow sevens [] refl 0 0 three).0, r))
unfolding run poll_write poll_flush poll_flush_pending flush_loop apply_keystream advance
    compact_consumed_prefix v3mtp.Stream.TlsStream.Writer.poll_write
    v3mtp.Stream.TlsStream.Writer.opening v3mtp.Stream.TlsStream.Writer.build_record
    TlsStream.to_bytes v3mtp.Stream.TlsStream.Writer.poll_flush
    v3mtp.Stream.TlsStream.Writer.poll_flush_record_inner v3mtp.Stream.State.Write.extend
    v3mtp.Stream.State.Write.advance
read_exact_decrypt-fake_tls_example =
    read_exact_decrypt-fake_tls narrow sevens [] refl 0 0 three drip drip-Willing wire_input refl
      refl refl (λ k. omega arith) (omega arith, (omega arith, (omega arith, tt)))
