-- ===== src/Stream/TlsStream/Reader/Histories.antt =====
-- Sequences of polls of the reader: what they deliver does not depend on how the upstream splits
-- the input.
use v3mtp.Prelude.{
  ℕ, ◌≡◌, inl, inr, refl, sym, ap, ◌∙◌, List, [], ◌∷◌, ◌++◌, map, append_assoc, Option, none, some,
  Option-cases,
}
use v3mtp.Stream.Io.{IoError, Poll, pending, failed, ready, AsyncRead}
use v3mtp.Stream.TlsStream.{
  TlsReaderState, idle, reading_header, reading_body, yielding, poisoned, FakeTlsReader, round,
  poll_read_loop, stored,
}
use v3mtp.Stream.TlsStream.Decode.{Event, byte, closed, broken}
use v3mtp.Stream.TlsStream.Reader.Accounts.{future, IsLeft, IsIntact, Accounts}
use v3mtp.Stream.TlsStream.Reader.Polls.{poll_read, PollTold, poll_read-PollTold}

-- The data among the events.
abbrev pub data_of : List Event → List ℕ
data_of [] = []
data_of (byte b ∷ es) = b ∷ data_of es
data_of (closed ∷ es) = data_of es
data_of (broken e ∷ es) = data_of es

pub data_of-map :
    (bytes : List ℕ) (es : List Event) → data_of (map byte bytes ++ es) ≡ bytes ++ data_of es
data_of-map [] es = refl
data_of-map (b ∷ bytes) es = ap (λ xs. b ∷ xs) (data_of-map bytes es)

-- What a poll put into the buffer of its caller.
abbrev pub delivered : Poll (List ℕ) → List ℕ
delivered (ready bytes) = bytes
delivered _ = []

module _ (io : AsyncRead) where
  open io use {Input, rest}

  -- Polls into buffers with this much room, and all that they deliver.
  unfoldable pub polls : List ℕ → FakeTlsReader io → Option (List ℕ × FakeTlsReader io)
  polls [] r = some ([], r)
  polls (room ∷ rooms) r = elim (poll_read io room r) [
    | none ↦ none
    | some p ↦ elim (polls rooms p.1) [ none ↦ none | some q ↦ some (delivered p.0 ++ q.0, q.1) ]
  ]

  polls-cons :
      (room : ℕ) (rooms : List ℕ) (r : FakeTlsReader io) (p : Poll (List ℕ) × FakeTlsReader io)
      (q : List ℕ × FakeTlsReader io)
      → poll_read io room r ≡ some p
      → polls rooms p.1 ≡ some q
      → polls (room ∷ rooms) r ≡ some (delivered p.0 ++ q.0, q.1)
  unfolding polls
  polls-cons room rooms r p q e f = rw (e, f, polls)

  -- Where `before` was to come, the polls succeed and deliver a beginning of its data, after
  -- `first`; a reader that has not failed still has the rest.
  abbrev pub PollsTold : List Event → List ℕ → List ℕ → FakeTlsReader io → Type 0
  PollsTold before first rooms r =
      (q : List ℕ × FakeTlsReader io) × ((polls rooms r ≡ some q)
        × ((more : List ℕ) × ((data_of before ≡ (first ++ q.0) ++ more)
              × (IsIntact io q.1.state → more ≡ data_of (future io q.1)))))

  first_fails :
      (room : ℕ) (u : Input) (e : Option IoError)
      → poll_read io room (record { upstream = u; state = poisoned e })
        ≡ some (failed (stored e), record { upstream = u; state = poisoned none })
  unfolding poll_read poll_read_loop round
  first_fails room u e = refl

  -- A reader that has failed delivers nothing more, whatever it is asked for.
  pub polls-poisoned :
      (rooms : List ℕ) (u : Input) (e : Option IoError)
      → (e' : Option IoError) × (polls rooms (record { upstream = u; state = poisoned e })
          ≡ some ([], record { upstream = u; state = poisoned e' }))
  unfolding polls
  polls-poisoned [] u e = (e, refl)
  polls-poisoned (room ∷ rooms) u e =
      let (e', h) = polls-poisoned rooms u none in
      (
        e',
        polls-cons room rooms (record { upstream = u; state = poisoned e })
            (failed (stored e), record { upstream = u; state = poisoned none })
            ([], record { upstream = u; state = poisoned e' }) (first_fails room u e) h,
      )

  move :
      (before after : List Event) (first rooms : List ℕ) (r : FakeTlsReader io)
      → data_of before ≡ first ++ data_of after
      → PollsTold after [] rooms r
      → PollsTold before first rooms r
  move before after first rooms r e (q, (h, (more, (split, left)))) =
      (q, (h, (more, (e ∙ ap (λ xs. first ++ xs) split ∙ sym (append_assoc first q.0 more), left))))

  failed_told :
      (rooms : List ℕ) (before : List Event) (e : IoError) (u : Input) (s : TlsReaderState)
      → IsLeft io (failed e) s
      → PollsTold before [] rooms (record { upstream = u; state = s })
  failed_told rooms before e u idle left = absurd left
  failed_told rooms before e u (reading_header h) left = absurd left
  failed_told rooms before e u (reading_body ty len buffer) left = absurd left
  failed_told rooms before e u (yielding y) left = absurd left
  failed_told rooms before e u (poisoned e') left =
      let (e'', h) = polls-poisoned rooms u e' in
      (
        ([], record { upstream = u; state = poisoned e'' }),
        (h, (data_of before, (refl, λ k. absurd k))),
      )

  poll_told :
      (start : Input) (room : ℕ) (rooms : List ℕ) (before : List Event) (out : Poll (List ℕ))
      (r : FakeTlsReader io)
      → IsLeft io out r.state
      → Accounts io start room before out r
      → (IsIntact io r.state → PollsTold (future io r) [] rooms r)
      → PollsTold before (delivered out) rooms r
  poll_told start room rooms before pending r sound acc again =
      move before (future io r) [] rooms r (ap data_of acc.0) (again sound)
  poll_told start room rooms before (ready bytes) r sound (inl acc) again =
      move before (future io r) bytes rooms r (ap data_of acc.0 ∙ data_of-map bytes (future io r))
        (again sound)
  poll_told start room rooms before (ready bytes) r sound (inr acc) again =
      move before (future io r) bytes rooms r
        (elim acc.1 [
          | inl alert ↦ ap data_of alert ∙ ap (λ xs. xs ++ data_of (future io r)) (sym acc.0)
          | inr over ↦
              ap data_of over.0
              ∙ ap data_of (sym over.1)
              ∙ ap (λ xs. xs ++ data_of (future io r)) (sym acc.0)
        ])
        (again sound)
  poll_told start room rooms before (failed e) r sound acc again =
      failed_told rooms before e r.upstream r.state sound

  -- However the upstream splits its input, and whatever room the polls give: all of them answer,
  -- what they deliver is a beginning of the data of the input decoded at once, and a reader that has not
  -- failed still has the rest to deliver.
  pub polls_lem :
      (rooms : List ℕ) (r : FakeTlsReader io)
      → IsIntact io r.state
      → PollsTold (future io r) [] rooms r
  unfolding polls
  polls_lem [] r sound = (([], r), (refl, (data_of (future io r), (refl, λ _. refl))))
  polls_lem (room ∷ rooms) r sound = elim (Option-cases (poll_read io room r)) [
    | inl nothing ↦ absurd (rw nothing at (poll_read-PollTold io room r sound))
    | inr p ↦
        let told : PollTold io r.upstream room (future io r) (some p.0) =
          rw p.1 at (poll_read-PollTold io room r sound) in
        let (q, (h, t)) =
          poll_told r.upstream room rooms (future io r) p.0.0 p.0.1 told.0 told.1
            (polls_lem rooms p.0.1) in
        ((delivered p.0.0 ++ q.0, q.1), (polls-cons room rooms r p.0 q p.1 h, t))
  ]
