-- ===== src/Stream/TlsStream/Writer/Records.antt =====
-- The writer's records, as the reader's reference decodes them.
use v3mtp.Prelude.{
  ℕ, ◌+◌, ◌*◌, ◌/◌, ◌%◌, ◌^◌, ◌≤◌, ◌<◌, ◌≡◌, refl, sym, ap, ◌∙◌, arith, List, [], ◌∷◌, ◌++◌, map,
  append_assoc, append-nil, some, ok, length, le→ltb_false,
}
use v3mtp.Stream.TlsStream.{
  TlsRecordHeader, parse, validate, to_bytes, dispose, deliver, tls_version, tls_record_application,
}
use v3mtp.Stream.TlsStream.Decode.{Event, byte, events, decode, of_valid, of_record}
use v3mtp.Stream.TlsStream.Decode.Records.{events-header, of_body_whole}
use v3mtp.Stream.TlsStream.Writer.{build_record}

-- In front of any input, the bytes `wire` decode to `payload`.
abbrev pub Carries : List ℕ → List ℕ → Type 0
Carries wire payload = (ys : List ℕ) → events (wire ++ ys) ≡ map byte payload ++ events ys

pub Carries-nil : Carries [] []
Carries-nil ys = refl

map_append :
    (xs ys : List ℕ) (zs : List Event)
    → map byte (xs ++ ys) ++ zs ≡ map byte xs ++ (map byte ys ++ zs)
map_append [] ys zs = refl
map_append (x ∷ xs) ys zs = ap (λ es. byte x ∷ es) (map_append xs ys zs)

pub Carries-append :
    (v w xs ys : List ℕ) → Carries v xs → Carries w ys → Carries (v ++ w) (xs ++ ys)
Carries-append v w xs ys h k zs =
    ap events (append_assoc v w zs)
    ∙ h (w ++ zs)
    ∙ ap (λ es. map byte xs ++ es) (k zs)
    ∙ sym (map_append xs ys (events zs))

pub events-Carries :
    (wire payload : List ℕ) → Carries wire payload → events wire ≡ map byte payload ++ []
unfolding decode
events-Carries wire payload h = ap events (sym (append-nil wire)) ∙ h []

app_header : ℕ → TlsRecordHeader
app_header n = record { record_type = tls_record_application; version = tls_version; length = n }

parse-to_bytes : (n : ℕ) → n < 2 ^ 16 → parse (to_bytes (app_header n)) ≡ some (app_header n)
unfolding parse to_bytes app_header
parse-to_bytes n small =
    let e : n / 256 % 256 * 256 + n % 256 ≡ n = omega arith in
    ap
      (λ k.
        some (record { record_type = tls_record_application; version = tls_version; length = k }))
      e

validate-app_header : (n : ℕ) → n ≤ 16640 → validate (app_header n) ≡ ok tt
unfolding validate app_header
validate-app_header n small = rw (le→ltb_false 16640 n small) refl

dispose_app : (xs : List ℕ) → 0 < length xs → dispose tls_record_application xs ≡ deliver
unfolding dispose
dispose_app [] pos = absurd (omega arith)
dispose_app (x ∷ xs) pos = refl

-- A record of a chunk that is not empty, and not longer than the limit, decodes to the chunk.
pub build_record-Carries :
    (chunk : List ℕ) → 0 < length chunk → length chunk ≤ 16640 → Carries (build_record chunk) chunk
unfolding build_record app_header to_bytes
build_record-Carries chunk pos small ys =
    let n = length chunk in
    let cast : n % 2 ^ 16 ≡ n = omega arith in
    rw cast (
      ap events (append_assoc (to_bytes (app_header n)) chunk ys)
      ∙ events-header (app_header n) (to_bytes (app_header n)) (chunk ++ ys) refl
          (parse-to_bytes n (omega arith))
      ∙ ap (λ v. of_valid events (app_header n) v (chunk ++ ys)) (validate-app_header n small)
      ∙ of_body_whole tls_record_application n chunk ys refl
      ∙ ap (λ d. of_record events d chunk ys) (dispose_app chunk pos))
