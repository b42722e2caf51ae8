-- ===== src/Stream/TlsStream/Decode/Records.antt =====
-- How a header and a body in front of the input are decoded.
use v3mtp.Prelude.{
  ℕ, ◌<◌, ◌≡◌, refl, sym, ◌∙◌, arith, false, List, [], ◌∷◌, ◌++◌, some, ltb, length, length-append,
  take-length-append, drop-length-append, le→ltb_false, lt→ltb,
}
use v3mtp.Stream.Io.{unexpected_eof}
use v3mtp.Stream.TlsStream.{TlsRecordHeader, parse, validate, dispose}
use v3mtp.Stream.TlsStream.Decode.{broken, events, of_valid, of_body, of_record, events-of_input}

-- A whole header is decoded before what follows it.
pub events-header :
    (h : TlsRecordHeader) (xs ys : List ℕ)
    → length xs ≡ 5
    → parse xs ≡ some h
    → events (xs ++ ys) ≡ of_valid events h (validate h) ys
events-header h [] ys n p = absurd (omega arith)
events-header h (x ∷ xs) ys n p =
    let whole = x ∷ xs in
    let enough : ltb (length (whole ++ ys)) 5 ≡ false =
      le→ltb_false (length (whole ++ ys)) 5 (omega (arith, n, length-append whole ys)) in
    events-of_input (whole ++ ys)
    ∙ rw (enough, take-length-append 5 whole ys (sym n), drop-length-append 5 whole ys (sym n), p)
        refl

pub events_short :
    (xs : List ℕ) → 0 < length xs → length xs < 5 → events xs ≡ broken unexpected_eof ∷ []
events_short [] pos few = absurd (omega arith)
events_short (x ∷ xs) pos few = events-of_input (x ∷ xs) ∙ rw (lt→ltb (length (x ∷ xs)) 5 few) refl

pub of_body_short :
    (ty len : ℕ) (xs : List ℕ)
    → length xs < len
    → of_body events ty len xs ≡ broken unexpected_eof ∷ []
of_body_short ty len xs few = rw (lt→ltb (length xs) len few) refl

pub of_body_whole :
    (ty len : ℕ) (payload ys : List ℕ)
    → length payload ≡ len
    → of_body events ty len (payload ++ ys) ≡ of_record events (dispose ty payload) payload ys
of_body_whole ty len payload ys n =
    let enough : ltb (length (payload ++ ys)) len ≡ false =
      le→ltb_false (length (payload ++ ys)) len (omega (arith, n, length-append payload ys)) in
    rw
      (enough, take-length-append len payload ys (sym n), drop-length-append len payload ys (sym n))
      refl
