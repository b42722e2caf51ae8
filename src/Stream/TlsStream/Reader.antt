-- ===== src/Stream/TlsStream/Reader.antt =====
-- What the parts of the reader have in common: the answers of the upstream.
pub mod Headers
pub mod Bodies
pub mod Accounts
pub mod Rounds
pub mod Polls
pub mod Histories
pub mod Exact
pub mod Upstream
use v3mtp.Prelude.{
  ℕ, ◌+◌, ◌≤◌, ◌<◌, ◌≡◌, ◌⊎◌, inl, inr, refl, sym, ◌∙◌, ap, arith, Bool, true, List, [], ◌∷◌, ◌++◌,
  is_empty, is_empty_nil,
}
use v3mtp.Stream.Io.{IoError, Poll, pending, failed, ready, AsyncRead, Reads}

-- The answer of a poll, with its equation.
pub data Answered {ℓ} (A : Type ℓ) (p : Poll A) : Type ℓ where
  was_pending : p ≡ pending → Answered A p
  was_failed : (e : IoError) → p ≡ failed e → Answered A p
  was_ready : (a : A) → p ≡ ready a → Answered A p

pub answered {ℓ} : {A : Type ℓ} (p : Poll A) → Answered A p
answered pending = was_pending refl
answered (failed e) = was_failed e refl
answered (ready a) = was_ready a refl

-- A read of nothing, into a buffer with room, is at the end.
pub read_end :
    (room : ℕ) (before after got : List ℕ)
    → Reads room before after (ready got)
    → 0 < room
    → is_empty got ≡ true
    → (before ≡ []) × (after ≡ [])
read_end room before after [] law pos over = elim (law.1.1 refl) [
  | inl zero_room ↦ absurd (omega arith)
  | inr at_end ↦ (at_end, sym law.0 ∙ at_end)
]
read_end room before after (x ∷ xs) law pos over = absurd (ground arith)

-- Some poll of the upstream failed so.
abbrev pub Fails : AsyncRead → IoError → Type 0
Fails io e = (room : ℕ) × ((u : io.Input) × ((io.poll_read room u).0 ≡ failed e))

-- Some poll of the upstream was not ready.
abbrev pub Waits : AsyncRead → Type 0
Waits io = (room : ℕ) × ((u : io.Input) × ((io.poll_read room u).0 ≡ pending))

module _ (io : AsyncRead) where
  open io use {Input, poll_read}

  -- From one upstream to another, by polls that were all ready.
  pub data Polled (start : Input) : Input → Type 0 where
    at_start : Polled start start
    then_ready :
        {u : Input} (room : ℕ) (got : List ℕ)
        → Polled start u
        → (poll_read room u).0 ≡ ready got
        → Polled start (poll_read room u).1

  -- The last poll on the way from `start` to `end` was not ready, and all before it were.
  abbrev pub WaitsBetween : Input → Input → Type 0
  WaitsBetween start end =
      (room : ℕ) × ((u : Input) × (Polled start u
          × (((poll_read room u).0 ≡ pending) × ((poll_read room u).1 ≡ end))))

  -- The last poll on the way failed so, and all before it were ready.
  abbrev pub FailsBetween : IoError → Input → Input → Type 0
  FailsBetween e start end =
      (room : ℕ) × ((u : Input) × (Polled start u
          × (((poll_read room u).0 ≡ failed e) × ((poll_read room u).1 ≡ end))))

  pub WaitsBetween-Waits : {start end : Input} → WaitsBetween start end → Waits io
  WaitsBetween-Waits (room, (u, (way, (w, last)))) = (room, (u, w))

  pub FailsBetween-Fails : {e : IoError} {start end : Input} → FailsBetween e start end → Fails io e
  FailsBetween-Fails (room, (u, (way, (w, last)))) = (room, (u, w))
