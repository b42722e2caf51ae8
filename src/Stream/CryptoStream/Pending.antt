-- ===== src/Stream/CryptoStream/Pending.antt =====
-- `PendingCiphertext`: ciphertext that waits for the upstream, with a position and a limit.
use v3mtp.Prelude.{
  ℕ, ◌+◌, ◌*◌, ◌-◌, ◌≤◌, ◌<◌, min, ◌≡◌, refl, sym, ap, ◌∙◌, arith, Bool, ◌&&◌, List, [], ◌∷◌, ◌++◌,
  Result, ok, err, ltb, leb, ◌==◌, if◌then◌else◌, length, length-append, length-drop, is_empty,
  drop, drop-all, drop-drop, drop-append_le, append-nil, Bool-cases, inl, inr, leb→le, le→ltb_false,
}
use v3mtp.Stream.Io.{IoError, would_block}
use v3mtp.Crypto.Ctr.{apply_keystream, length-apply_keystream}

pub record PendingCiphertext : Type 0 where
  pub buf : List ℕ
  pub pos : ℕ
  pub max_len : ℕ

abbrev pub new : ℕ → PendingCiphertext
new max_len = record { buf = []; pos = 0; max_len = max_len }

abbrev pub pending_len : PendingCiphertext → ℕ
pending_len p = length p.buf - p.pos

abbrev pub is_drained : PendingCiphertext → Bool
is_drained p = pending_len p == 0

abbrev pub pending_slice : PendingCiphertext → List ℕ
pending_slice p = drop p.pos p.buf

abbrev pub remaining_capacity : PendingCiphertext → ℕ
remaining_capacity p = p.max_len - pending_len p

unfoldable pub compact_consumed_prefix : PendingCiphertext → PendingCiphertext
compact_consumed_prefix p =
    if p.pos == 0
    then p
    else if leb (length p.buf) p.pos
    then record p { buf = []; pos = 0 }
    else record p { buf = drop p.pos p.buf; pos = 0 }

unfoldable pub advance : ℕ → PendingCiphertext → PendingCiphertext
advance n p =
    let pos = min (p.pos + n) (length p.buf) in
    let moved : PendingCiphertext = record p { pos = pos } in
    if pos == length p.buf
    then compact_consumed_prefix moved
    else if leb (16 * 1024) pos
    then compact_consumed_prefix moved
    else moved

abbrev pub replace_with : List ℕ → PendingCiphertext → PendingCiphertext
replace_with src p = record p { buf = src; pos = 0 }

-- The storage that is written to.
abbrev pub reclaimed : ℕ → PendingCiphertext → PendingCiphertext
reclaimed n p =
    if ltb 0 p.pos && ltb p.max_len (length p.buf + n) then compact_consumed_prefix p else p

-- The position of the encryptor and the buffer after the call.
unfoldable pub push_encrypted :
    (ℕ → ℕ) → ℕ → List ℕ → PendingCiphertext → Result IoError (ℕ × PendingCiphertext)
push_encrypted stream i plaintext p =
    let room = reclaimed (length plaintext) p in
    if is_empty plaintext
    then ok (i, p)
    else if ltb (remaining_capacity p) (length plaintext)
    then err would_block
    else ok
        (i + length plaintext, record room { buf = room.buf ++ apply_keystream stream i plaintext })

-- The storage is within the limit, and the position within the storage.
pub record IsBounded (max_len : ℕ) (p : PendingCiphertext) : Type 0 where
  pub limit : p.max_len ≡ max_len
  pub stored : length p.buf ≤ max_len
  pub within : p.pos ≤ length p.buf

pub slice-compact :
    (p : PendingCiphertext) → pending_slice (compact_consumed_prefix p) ≡ pending_slice p
unfolding compact_consumed_prefix
slice-compact p = elim (Bool-cases (p.pos == 0)) [
  | inl z ↦ rw z refl
  | inr nz ↦ elim (Bool-cases (leb (length p.buf) p.pos)) [
    | inl all ↦ rw (nz, all) (sym (drop-all p.pos p.buf (leb→le (length p.buf) p.pos all)))
    | inr some_left ↦ rw (nz, some_left) refl
  ]
]

compact-IsBounded :
    (max_len : ℕ) (p : PendingCiphertext)
    → IsBounded max_len p
    → IsBounded max_len (compact_consumed_prefix p)
unfolding compact_consumed_prefix
compact-IsBounded max_len p b = ground (arith, length-drop p.pos p.buf)

-- Where something is compacted, only what waits is stored.
compact_stored :
    (p : PendingCiphertext) → 0 < p.pos → length (compact_consumed_prefix p).buf ≡ pending_len p
unfolding compact_consumed_prefix
compact_stored p h = ground (arith, length-drop p.pos p.buf)

pub slice-advance :
    (n : ℕ) (p : PendingCiphertext)
    → p.pos + n ≤ length p.buf
    → pending_slice (advance n p) ≡ drop n (pending_slice p)
unfolding advance
slice-advance n p fits =
    let pos = min (p.pos + n) (length p.buf) in
    let here : pos ≡ p.pos + n = omega arith in
    let moved : PendingCiphertext = record p { pos = pos } in
    let target : pending_slice moved ≡ drop n (pending_slice p) =
      ap (λ k. drop k p.buf) here ∙ drop-drop p.pos n p.buf in
    elim (Bool-cases (pos == length p.buf)) [
      | inl whole ↦ rw whole (slice-compact moved ∙ target)
      | inr part ↦ elim (Bool-cases (leb (16 * 1024) pos)) [
        | inl far ↦ rw (part, far) (slice-compact moved ∙ target)
        | inr near ↦ rw (part, near) target
      ]
    ]

pub advance-IsBounded :
    (max_len n : ℕ) (p : PendingCiphertext) → IsBounded max_len p → IsBounded max_len (advance n p)
unfolding advance
advance-IsBounded max_len n p b =
    let moved : PendingCiphertext = record p { pos = min (p.pos + n) (length p.buf) } in
    let m : IsBounded max_len moved = record {
      limit = b.limit;
      stored = b.stored;
      within = omega arith;
    } in
    ground (arith, m, compact-IsBounded max_len moved m)

-- What is written to has room for the plaintext.
reclaimed_room :
    (max_len n : ℕ) (p : PendingCiphertext)
    → IsBounded max_len p
    → n ≤ remaining_capacity p
    → IsBounded max_len (reclaimed n p) × (length (reclaimed n p).buf + n ≤ max_len)
reclaimed_room max_len n p b fits =
    ground (arith, b.limit, b.stored, b.within, compact-IsBounded max_len p b, compact_stored p)

slice-reclaimed : (n : ℕ) (p : PendingCiphertext) → pending_slice (reclaimed n p) ≡ pending_slice p
slice-reclaimed n p = elim (Bool-cases (ltb 0 p.pos && ltb p.max_len (length p.buf + n))) [
  | inl yes_ ↦ rw yes_ (slice-compact p)
  | inr no_ ↦ rw no_ refl
]

-- With room for it, the plaintext is encrypted at the end, and the limit is kept.
pub push_encrypted_lem :
    (stream : ℕ → ℕ) (i max_len : ℕ) (plaintext : List ℕ) (p : PendingCiphertext)
    → IsBounded max_len p
    → length plaintext ≤ remaining_capacity p
    → (q : PendingCiphertext) × ((push_encrypted stream i plaintext p
          ≡ ok (i + length plaintext, q))
        × ((pending_slice q ≡ pending_slice p ++ apply_keystream stream i plaintext)
            × IsBounded max_len q))
unfolding push_encrypted apply_keystream
push_encrypted_lem stream i max_len [] p b fits =
    (p, (ap (λ k. ok (k, p)) (omega arith), (sym (append-nil (pending_slice p)), b)))
push_encrypted_lem stream i max_len (x ∷ plaintext) p b fits =
    let whole = x ∷ plaintext in
    let room = reclaimed (length whole) p in
    let r = reclaimed_room max_len (length whole) p b fits in
    let q : PendingCiphertext = record room { buf = room.buf ++ apply_keystream stream i whole } in
    let size = length-append room.buf (apply_keystream stream i whole) in
    let coded = length-apply_keystream stream i whole in
    (
      q,
      (
        rw (le→ltb_false (remaining_capacity p) (length whole) fits) refl,
        (
          drop-append_le room.pos room.buf (apply_keystream stream i whole) r.0.within
              ∙ ap (λ xs. xs ++ apply_keystream stream i whole) (slice-reclaimed (length whole) p),
          record {
            limit = r.0.limit;
            stored = omega (arith, size, coded, r.1);
            within = omega (arith, size, r.0.within);
          },
        ),
      ),
    )
