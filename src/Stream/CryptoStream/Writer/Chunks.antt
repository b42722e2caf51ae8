-- ===== src/Stream/CryptoStream/Writer/Chunks.antt =====
-- A buffer given to a `CryptoWriter` of which nothing waits, or whose upstream blocks.
use v3mtp.Prelude.{
  ℕ, ◌+◌, ◌≤◌, ◌<◌, min, ◌≡◌, sym, ap, ◌∙◌, arith, false, List, [], ◌++◌, append_assoc, append-nil,
  ◌==◌, ==_iff, length, length-take, length-append, length-drop, take, drop, take-append-drop,
  take-all, is_empty, is_empty_pos, Bool-cases, inl, inr,
}
use v3mtp.Stream.Io.{Poll, pending, failed, ready, AsyncWrite, Writes}
use v3mtp.Stream.TlsStream.Writer.Histories.{accepted}
use v3mtp.Crypto.Ctr.{apply_keystream, length-apply_keystream, apply_keystream-append}
use v3mtp.Stream.CryptoStream.Pending
use v3mtp.Stream.CryptoStream.Pending.{PendingCiphertext, IsBounded, push_encrypted_lem}
use v3mtp.Stream.CryptoStream.Writer.{
  CryptoWriterState, idle, flushing, poisoned, CryptoWriter, after_write, buffer_more,
  write_through,
}

module _ (io : AsyncWrite) (stream : ℕ → ℕ) where
  open io use {Output, sent, writes, sent-poll_flush}

  -- The writer began at `start` of the keystream, with `base` on the upstream.
  module _ (base : List ℕ) (start max_len : ℕ) (some_room : 0 < max_len) where
    abbrev pub encrypted : List ℕ → List ℕ
    encrypted payload = base ++ apply_keystream stream start payload

    abbrev pub StateIsEncrypted : List ℕ → Output → ℕ → CryptoWriterState → Type 0
    StateIsEncrypted payload u encryptor idle =
        (encryptor ≡ start + length payload) × (encrypted payload ≡ sent u)
    StateIsEncrypted payload u encryptor (flushing p) =
        (encryptor ≡ start + length payload)
        × ((encrypted payload ≡ sent u ++ Pending.pending_slice p) × IsBounded max_len p)
    StateIsEncrypted payload u encryptor (poisoned e) =
        (lost : List ℕ) × (encrypted payload ≡ sent u ++ lost)

    -- The encryption of `payload` is sent, but for what waits; after a failure the end may be lost.
    abbrev pub IsEncrypted : List ℕ → CryptoWriter io → Type 0
    IsEncrypted payload w =
        (w.max_pending_write ≡ max_len) × StateIsEncrypted payload w.upstream w.encryptor w.state

    -- A write of a buffer that is not empty takes some of it, or the buffer is full, or the stream
    -- is poisoned.
    abbrev pub Outcome : List ℕ → Poll ℕ → CryptoWriterState → Type 0
    Outcome buf (ready n) s = (n ≤ length buf) × (0 < length buf → 0 < n)
    Outcome buf pending (flushing p) = Pending.pending_len p ≡ max_len
    Outcome buf (failed e) (poisoned e') = Unit
    Outcome buf _ _ = ⊥

    abbrev pub WriteTold : List ℕ → List ℕ → Poll ℕ × CryptoWriter io → Type 0
    WriteTold payload buf r =
        IsEncrypted (payload ++ accepted buf r.0) r.1 × Outcome buf r.0 r.1.state

    grown :
        (payload plaintext before : List ℕ) (encryptor : ℕ)
        → encryptor ≡ start + length payload
        → encrypted payload ≡ before
        → encrypted (payload ++ plaintext) ≡ before ++ apply_keystream stream encryptor plaintext
    grown payload plaintext before encryptor at_ e =
        ap (λ xs. base ++ xs) (apply_keystream-append stream start payload plaintext)
        ∙ sym (
            append_assoc base (apply_keystream stream start payload)
              (apply_keystream stream (start + length payload) plaintext))
        ∙ ap (λ xs. xs ++ apply_keystream stream (start + length payload) plaintext) e
        ∙ ap (λ k. before ++ apply_keystream stream k plaintext) (sym at_)

    moved :
        (payload plaintext : List ℕ) (encryptor : ℕ)
        → encryptor ≡ start + length payload
        → encryptor + length plaintext ≡ start + length (payload ++ plaintext)
    moved payload plaintext encryptor at_ = omega (arith, at_, length-append payload plaintext)

    -- The payload's chunk was encrypted to `c`, and given to the upstream.
    after_told :
        (payload buf plaintext c : List ℕ) (answer : Poll ℕ) (u u' : Output) (w : CryptoWriter io)
        → w.max_pending_write ≡ max_len
        → w.encryptor + length c ≡ start + length (payload ++ plaintext)
        → encrypted payload ≡ sent u
        → encrypted (payload ++ plaintext) ≡ sent u ++ c
        → take (length c) buf ≡ plaintext
        → 0 < length c
        → length c ≤ length buf
        → length c ≤ max_len
        → Writes c (sent u) (sent u') answer
        → WriteTold payload buf (after_write io answer u' c w)
    after_told payload buf plaintext c pending u u' w limit moved_on e all taken pos within fits
          law =
        rw taken (
          (
            limit,
            (
              moved_on,
              (
                all ∙ ap (λ xs. xs ++ c) (sym law),
                record { limit = limit; stored = fits; within = omega arith },
              ),
            ),
          ),
          (within, λ _. pos),
        )
    after_told payload buf plaintext c (failed k) u u' w limit moved_on e all taken pos within fits
          law =
        (
          (
            limit,
            ([], ap encrypted (append-nil payload) ∙ e ∙ sym law ∙ sym (append-nil (sent u'))),
          ),
          tt,
        )
    after_told payload buf plaintext c (ready n) u u' w limit moved_on e all taken pos within fits
          law =
        let split : sent u' ++ drop n c ≡ sent u ++ c =
          ap (λ xs. xs ++ drop n c) law.0
          ∙ append_assoc (sent u) (take n c) (drop n c)
          ∙ ap (λ xs. sent u ++ xs) (take-append-drop n c) in
        elim (Bool-cases (n == 0)) [
          | inl nothing ↦
              let none_taken : sent u' ≡ sent u =
                law.0
                ∙ ap (λ k. sent u ++ take k c) ((==_iff n 0).0 nothing)
                ∙ append-nil (sent u) in
              rw nothing (
                (
                  limit,
                  (
                    [],
                    ap encrypted (append-nil payload)
                        ∙ e
                        ∙ sym none_taken
                        ∙ sym (append-nil (sent u')),
                  ),
                ),
                tt,
              )
          | inr some_written ↦ elim (Bool-cases (n == length c)) [
            | inl whole ↦
                rw (some_written, whole, taken)
                  (
                    (
                      limit,
                      (
                        moved_on,
                        all
                            ∙ ap (λ xs. sent u ++ xs)
                                (sym (take-all n c (omega (arith, (==_iff n (length c)).0 whole))))
                            ∙ sym law.0,
                      ),
                    ),
                    (within, λ _. pos),
                  )
            | inr part ↦
                rw (some_written, part, taken)
                  (
                    (
                      limit,
                      (
                        moved_on,
                        (
                          all ∙ sym split,
                          record {
                            limit = limit;
                            stored = omega (arith, fits, length-drop n c);
                            within = omega arith;
                          },
                        ),
                      ),
                    ),
                    (within, λ _. pos),
                  )
          ]
        ]

    -- Nothing waits.
    pub through_told :
        (payload buf : List ℕ) (u : Output) (w : CryptoWriter io)
        → w.max_pending_write ≡ max_len
        → w.encryptor ≡ start + length payload
        → encrypted payload ≡ sent u
        → is_empty buf ≡ false
        → WriteTold payload buf (write_through io stream buf u w)
    through_told payload buf u w limit at_ e some_bytes =
        let k = min (length buf) w.max_pending_write in
        let plaintext = take k buf in
        let c = apply_keystream stream w.encryptor plaintext in
        let size : length plaintext ≡ k = omega (arith, length-take k buf) in
        let coded = length-apply_keystream stream w.encryptor plaintext in
        after_told payload buf plaintext c (io.poll_write c u).0 u (io.poll_write c u).1 w limit
          (ap (λ n. w.encryptor + n) coded ∙ moved payload plaintext w.encryptor at_) e
          (grown payload plaintext (sent u) w.encryptor at_ e) (ap (λ n. take n buf) (coded ∙ size))
          (omega (arith, coded, size, some_room, limit, is_empty_pos buf some_bytes))
          (omega (arith, coded, size)) (omega (arith, coded, size, limit)) (writes c u)

    -- The upstream blocks.
    pub buffer_told :
        (payload buf : List ℕ) (u : Output) (p : PendingCiphertext) (w : CryptoWriter io)
        → w.max_pending_write ≡ max_len
        → w.encryptor ≡ start + length payload
        → encrypted payload ≡ sent u ++ Pending.pending_slice p
        → IsBounded max_len p
        → is_empty buf ≡ false
        → WriteTold payload buf (buffer_more io stream buf u (flushing p) w)
    buffer_told payload buf u p w limit at_ e b some_bytes =
        let n = min (length buf) (Pending.remaining_capacity p) in
        let plaintext = take n buf in
        let size : length plaintext ≡ n = omega (arith, length-take n buf) in
        elim (Bool-cases (n == 0)) [
          | inl full ↦ rw full (
            (limit, rw (append-nil payload) (at_, (e, b))),
            omega (arith, (==_iff n 0).0 full, b.limit, b.stored, is_empty_pos buf some_bytes),
          )
          | inr room ↦
              let (q, (is_ok, (slice, b'))) =
                push_encrypted_lem stream w.encryptor max_len plaintext p b (omega (arith, size)) in
              rw (room, is_ok, ap (λ k. take k buf) size)
                (
                  (
                    limit,
                    (
                      moved payload plaintext w.encryptor at_,
                      (
                        grown payload plaintext (sent u ++ Pending.pending_slice p) w.encryptor at_
                              e
                            ∙ append_assoc (sent u) (Pending.pending_slice p)
                                (apply_keystream stream w.encryptor plaintext)
                            ∙ ap (λ xs. sent u ++ xs) (sym slice),
                        b',
                      ),
                    ),
                  ),
                  (omega (arith, size), λ _. ground (arith, size, room)),
                )
        ]
