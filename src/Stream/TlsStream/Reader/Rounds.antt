-- ===== src/Stream/TlsStream/Reader/Rounds.antt =====
-- A round of the reader's loop against the decoded input.
use v3mtp.Prelude.{
  ℕ, ◌+◌, ◌-◌, ◌*◌, ◌≤◌, ◌<◌, ◌≡◌, inl, inr, refl, sym, ap, ◌∙◌, arith, List, [], ◌∷◌, ◌++◌, map,
  Result, ok, err, ◌==◌, length, length-append, length-replicate, length-take, drop-all, Bool-cases,
  leb→le, leb_false→lt,
}
use v3mtp.Stream.Io.{IoError, AsyncRead}
use v3mtp.Stream.State.Header
use v3mtp.Stream.State.Header.{HeaderBuffer}
use v3mtp.Stream.State.Yield
use v3mtp.Stream.State.Yield.{YieldBuffer}
use v3mtp.Stream.TlsStream.{
  HeaderPollResult, header_pending, header_eof, header_complete, header_error, BodyPollResult,
  body_pending, body_complete, body_error, TlsReaderState, idle, reading_header, reading_body,
  yielding, poisoned, TlsRecordHeader, Disposition, skip, deliver, stop, refuse, validate, dispose,
  poll_read_header, poll_read_body, round, accept, after_header, after_body, after_record,
}
use v3mtp.Stream.TlsStream.Decode.{
  Event, byte, broken, events, of_valid, of_body, of_record, decode,
}
use v3mtp.Stream.TlsStream.Reader.{Polled}
use v3mtp.Stream.TlsStream.Decode.Records.{
  events-header, events_short, of_body_short, of_body_whole,
}
use v3mtp.Stream.TlsStream.Reader.Headers.{HeaderTold, poll_read_header_lem}
use v3mtp.Stream.TlsStream.Reader.Bodies.{BodyTold, poll_read_body_lem}
use v3mtp.Stream.TlsStream.Reader.Accounts.{coming, IsIntact, rounds_left, RoundTold}

map_append :
    (xs ys : List ℕ) (es : List Event)
    → map byte (xs ++ ys) ++ es ≡ map byte xs ++ (map byte ys ++ es)
map_append [] ys es = refl
map_append (x ∷ xs) ys es = ap (λ zs. byte x ∷ zs) (map_append xs ys es)

module _ (io : AsyncRead) where
  open io use {Input, rest}

  accept_told :
      (start : Input) (room left : ℕ) (before : List Event) (u : Input) (h : TlsRecordHeader)
      (v : Result IoError (Unit {0}))
      → before ≡ of_valid events h v (rest u)
      → 4 * length (rest u) + 2 < left
      → Polled io start u
      → RoundTold io start room before left (accept io u h v)
  accept_told start room left before u h (err e) eq less way = (tt, (refl, inl eq))
  accept_told start room left before u h (ok tt) eq less way = (omega arith, (eq, (less, way)))

  header_told :
      (start : Input) (room left n : ℕ) (result : HeaderPollResult) (before : List ℕ) (u : Input)
      (h : HeaderBuffer)
      → HeaderTold io start result before u h
      → length before < n + 5
      → 4 * n ≤ left
      → RoundTold io start room (events before) left (after_header io result u h)
  unfolding decode
  header_told start room left n header_pending before u h told few less =
      (told.1.0, (ap events told.0, told.1.1))
  header_told start room left n header_eof before u h told few less =
      (tt, inr (refl, inr (ap events told.0, ap events told.1)))
  header_told start room left n (header_error e) before u h told few less = elim told [
    | inl t ↦
        (tt, (refl, inl (events_short before t.1.0 t.1.1 ∙ ap (λ k. broken k ∷ []) (sym t.0))))
    | inr t ↦ (tt, (refl, inr t))
  ]
  header_told start room left n (header_complete p) before u h told few less =
      let (way, (xs, (five, (split, eq)))) = told in
      accept_told start room left (events before) u p (validate p)
        (ap events split ∙ events-header p xs (rest u) five eq)
        (omega (arith, few, less, ap length split, length-append xs (rest u), five)) way

  dispose_deliver : (ty : ℕ) (payload : List ℕ) → dispose ty payload ≡ deliver → 0 < length payload
  unfolding dispose
  dispose_deliver ty [] e = ground (arith, e)
  dispose_deliver ty (x ∷ payload) e = omega arith

  record_told :
      (start : Input) (room left : ℕ) (d : Disposition) (payload : List ℕ) (u : Input)
      → ((d ≡ deliver) → 0 < length payload)
      → 4 * length (rest u) + 1 < left
      → Polled io start u
      → RoundTold io start room
          (of_record events d payload (rest u))
          left
          (after_record io d u payload)
  record_told start room left skip payload u some_left less way = (tt, (refl, (less, way)))
  record_told start room left deliver payload u some_left less way =
      (some_left refl, (refl, (omega (arith, less), way)))
  record_told start room left stop payload u some_left less way = (tt, inr (refl, inl refl))
  record_told start room left (refuse e) payload u some_left less way = (tt, (refl, inl refl))

  body_told :
      (start : Input) (room left ty len : ℕ) (result : BodyPollResult) (before : List ℕ) (u : Input)
      (buffer : List ℕ)
      → BodyTold io start result len before u buffer
      → 4 * length before + 1 < left + 4 * len
      → RoundTold io start room
          (of_body events ty len before)
          left
          (after_body io result u ty len buffer)
  body_told start room left ty len body_pending before u buffer told less =
      (told.1.0, (ap (of_body events ty len) told.0, told.1.1))
  body_told start room left ty len (body_error e) before u buffer told less = elim told [
    | inl t ↦
        (tt, (refl, inl (of_body_short ty len before t.1.0 ∙ ap (λ k. broken k ∷ []) (sym t.0))))
    | inr t ↦ (tt, (refl, inr t))
  ]
  body_told start room left ty len (body_complete payload) before u buffer told less =
      let (way, (split, n)) = told in
      rw (split, of_body_whole ty len payload (rest u) n)
        (record_told start room left (dispose ty payload) payload u (dispose_deliver ty payload)
          (omega (arith, less, n, ap length split, length-append payload (rest u))) way)

  yield_told :
      (start : Input) (room : ℕ) (u : Input) (y : YieldBuffer)
      → y.position < length y.bytes
      → RoundTold io start room
          (coming io u (yielding y))
          (rounds_left io (record { upstream = u; state = yielding y }))
          (round io room u (yielding y))
  unfolding round
  yield_told start room u y some_left = elim (Bool-cases (room == 0)) [
    | inl full ↦ rw full (some_left, inl (refl, ((λ _. ground (arith, full)), omega arith)))
    | inr open_ ↦
        let copied = (Yield.copy_to room y).0 in
        let y' = (Yield.copy_to room y).1 in
        let split : coming io u (yielding y)
            ≡ map byte copied ++ (map byte (Yield.as_slice y') ++ events (rest u)) =
          ap (λ xs. map byte xs ++ events (rest u)) (Yield.as_slice-copy_to room y)
          ∙ map_append copied (Yield.as_slice y') (events (rest u)) in
        elim (Bool-cases (Yield.is_empty y')) [
          | inl done ↦
              rw (open_, done)
                (
                  tt,
                  inl (
                    split
                        ∙ ap (λ xs. map byte copied ++ (map byte xs ++ events (rest u)))
                            (drop-all y'.position y'.bytes
                              (leb→le (length y'.bytes) y'.position done)),
                    (Yield.copy_to_some room y some_left, Yield.length-copy_to room y),
                  ),
                )
          | inr more ↦
              rw (open_, more)
                (
                  leb_false→lt (length y'.bytes) y'.position more,
                  inl (split, (Yield.copy_to_some room y some_left, Yield.length-copy_to room y)),
                )
        ]
  ]

  pub round-RoundTold :
      (start : Input) (room : ℕ) (u : Input) (s : TlsReaderState)
      → IsIntact io s
      → Polled io start u
      → RoundTold io start room
          (coming io u s)
          (rounds_left io (record { upstream = u; state = s }))
          (round io room u s)
  unfolding round Header.new
  round-RoundTold start room u idle sound way = elim (Bool-cases (room == 0)) [
    | inl full ↦ rw full (tt, inl (refl, ((λ _. ground (arith, full)), omega arith)))
    | inr open_ ↦ rw open_ ((length-replicate {A = ℕ} 5 0, omega arith), (refl, (omega arith, way)))
  ]
  round-RoundTold start room u (reading_header h) sound way =
      header_told start room (4 * length (rest u) + 0) (length (rest u))
        (poll_read_header io (Header.remaining h) u h).0 (Header.as_slice h ++ rest u)
        (poll_read_header io (Header.remaining h) u h).1.0
        (poll_read_header io (Header.remaining h) u h).1.1
        (poll_read_header_lem io start (Header.remaining h) (Header.as_slice h ++ rest u) u h
          (sound.0, omega (arith, sound.1)) (omega arith) refl way)
        (omega (
          arith,
          sound.1,
          length-append (Header.as_slice h) (rest u),
          length-take h.filled h.bytes,
        ))
        (omega arith)
  round-RoundTold start room u (reading_body ty len buffer) sound way =
      body_told start room (4 * length (rest u) + 2) ty len
        (poll_read_body io (len - length buffer) u len buffer).0 (buffer ++ rest u)
        (poll_read_body io (len - length buffer) u len buffer).1.0
        (poll_read_body io (len - length buffer) u len buffer).1.1
        (poll_read_body_lem io start (len - length buffer) len (buffer ++ rest u) u buffer sound
          (omega arith) refl way)
        (omega (arith, sound, length-append buffer (rest u)))
  round-RoundTold start room u (yielding y) sound way = yield_told start room u y sound
  round-RoundTold start room u (poisoned e) sound way = absurd sound
