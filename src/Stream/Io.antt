-- ===== src/Stream/Io.antt =====
-- The traits `AsyncRead` and `AsyncWrite` of the crate tokio: what a poll of an upstream answers,
-- as interfaces that any upstream may fill, with the bytes that it has still to give (`rest`) and
-- that it has taken (`sent`).
use v3mtp.Prelude.{ℕ, ◌≤◌, ◌≡◌, ◌⊎◌, List, [], ◌++◌, length, take}

-- The kinds of `std::io::Error`, without their texts; `upstream` is an error from below.
pub data IoError : Type 0 where
  invalid_data : IoError
  unexpected_eof : IoError
  write_zero : IoError
  would_block : IoError
  other : IoError
  upstream : ℕ → IoError

pub data Poll {ℓ} (A : Type ℓ) : Type ℓ where
  pending : Poll A
  failed : IoError → Poll A
  ready : A → Poll A

-- A poll takes no more than the buffer holds; it reads nothing into a buffer with room only at the
-- end of the input. A poll that is pending or fails takes nothing.
abbrev pub Reads : ℕ → List ℕ → List ℕ → Poll (List ℕ) → Type 0
Reads room before after pending = before ≡ after
Reads room before after (failed e) = before ≡ after
Reads room before after (ready bytes) =
    (before ≡ bytes ++ after)
    × ((length bytes ≤ room) × ((bytes ≡ []) → (room ≡ 0) ⊎ (before ≡ [])))

pub record AsyncRead : Type 1 where
  pub Input : Type 0
  pub poll_read : ℕ → Input → Poll (List ℕ) × Input
  pub rest : Input → List ℕ
  pub reads :
      (room : ℕ) (u : Input) → Reads room (rest u) (rest (poll_read room u).1) (poll_read room u).0

-- A poll takes the bytes that it counts, from the front.
abbrev pub Writes : List ℕ → List ℕ → List ℕ → Poll ℕ → Type 0
Writes bytes before after pending = after ≡ before
Writes bytes before after (failed e) = after ≡ before
Writes bytes before after (ready n) = (after ≡ before ++ take n bytes) × (n ≤ length bytes)

pub record AsyncWrite : Type 1 where
  pub Output : Type 0
  pub poll_write : List ℕ → Output → Poll ℕ × Output
  pub poll_flush : Output → Poll (Unit {0}) × Output
  pub poll_shutdown : Output → Poll (Unit {0}) × Output
  pub sent : Output → List ℕ
  pub writes :
      (bytes : List ℕ) (w : Output)
      → Writes bytes (sent w) (sent (poll_write bytes w).1) (poll_write bytes w).0
  pub sent-poll_flush : (w : Output) → sent (poll_flush w).1 ≡ sent w
  pub sent-poll_shutdown : (w : Output) → sent (poll_shutdown w).1 ≡ sent w
