-- ===== src/Protocol/Tls/Offered.antt =====
-- The extensions of a ClientHello as a client writes them, and what the loops of `Tls/ClientHello` find in them.
use v3mtp.Prelude.{
  ℕ, zero, suc, ◌+◌, ◌^◌, ◌≤◌, ◌<◌, min, ◌≡◌, refl, sym, ap, ◌∙◌, arith, true, false, List, [], ◌∷◌,
  ◌++◌, append_assoc, length, length-append, take, drop, take-length-append, drop-length-append,
  byte_at, ltb, leb, ◌==◌, to_be_bytes, All,
}
use v3mtp.Protocol.Tls.ServerHello.{alpn_type}
use v3mtp.Protocol.Tls.ClientHello.{u16_at, slice, alpn_list, alpn_loop}

pub byte_at-skip :
    (pre xs : List ℕ) (pos k : ℕ) → pos ≡ length pre + k → byte_at (pre ++ xs) pos ≡ byte_at xs k
byte_at-skip [] xs pos k e = ap (byte_at xs) (omega (arith, e))
byte_at-skip (x ∷ pre) xs zero k e = absurd (omega (arith, e))
byte_at-skip (x ∷ pre) xs (suc pos) k e = byte_at-skip pre xs pos k (omega (arith, e))

pub u16_at-skip :
    (message pre rest : List ℕ) (pos n : ℕ)
    → message ≡ pre ++ (to_be_bytes 2 n ++ rest)
    → pos ≡ length pre
    → n < 2 ^ 16
    → u16_at message pos ≡ n
u16_at-skip message pre rest pos n e at_ small =
    let xs = to_be_bytes 2 n ++ rest in
    let high : byte_at message pos ≡ byte_at xs 0 =
      ap (λ m. byte_at m pos) e ∙ byte_at-skip pre xs pos 0 (omega (arith, at_)) in
    let low : byte_at message (pos + 1) ≡ byte_at xs 1 =
      ap (λ m. byte_at m (pos + 1)) e ∙ byte_at-skip pre xs (pos + 1) 1 (omega (arith, at_)) in
    omega (arith, high, low, small)

-- Protocols, each behind its length.
abbrev pub offer_bytes : List (List ℕ) → List ℕ
offer_bytes [] = []
offer_bytes (p ∷ ps) = length p ∷ (p ++ offer_bytes ps)

abbrev IsShort : List ℕ → Type 0
IsShort p = length p < 256

alpn_list-step :
    (fuel : ℕ) (message : List ℕ) (lp list_end plen : ℕ)
    → byte_at message lp ≡ plen
    → lp + 1 + plen ≤ list_end
    → alpn_list (suc fuel) message lp list_end
      ≡ slice message (lp + 1) plen ∷ alpn_list fuel message (lp + 1 + plen) list_end
unfolding alpn_list
alpn_list-step fuel message lp list_end plen e fits =
    let first : leb list_end lp ≡ false = ground (arith, fits) in
    let second : ltb list_end (lp + 1 + plen) ≡ false = ground (arith, fits) in
    rw (e, first, second) refl

alpn_list-end : (fuel : ℕ) (message : List ℕ) (lp : ℕ) → alpn_list fuel message lp lp ≡ []
unfolding alpn_list
alpn_list-end zero message lp = refl
alpn_list-end (suc fuel) message lp = let over : leb lp lp ≡ true = ground arith in rw over refl

alpn_list-reads :
    (fuel : ℕ) (message pre rest : List ℕ) (lp list_end : ℕ) (ps : List (List ℕ))
    → message ≡ pre ++ (offer_bytes ps ++ rest)
    → lp ≡ length pre
    → list_end ≡ lp + length (offer_bytes ps)
    → length ps ≤ fuel
    → alpn_list fuel message lp list_end ≡ ps
alpn_list-reads fuel message pre rest lp list_end [] e at_ stop few =
    ap (alpn_list fuel message lp) (omega (arith, stop)) ∙ alpn_list-end fuel message lp
alpn_list-reads zero message pre rest lp list_end (p ∷ ps) e at_ stop few =
    absurd (omega (arith, few))
alpn_list-reads (suc fuel) message pre rest lp list_end (p ∷ ps) e at_ stop few =
    let tail = p ++ (offer_bytes ps ++ rest) in
    let whole : message ≡ pre ++ (length p ∷ tail) =
      e ∙ ap (λ xs. pre ++ (length p ∷ xs)) (append_assoc p (offer_bytes ps) rest) in
    let size : byte_at message lp ≡ length p =
      ap (λ m. byte_at m lp) whole ∙ byte_at-skip pre (length p ∷ tail) lp 0 (omega (arith, at_)) in
    let after : message ≡ (pre ++ (length p ∷ [])) ++ tail =
      whole ∙ sym (append_assoc pre (length p ∷ []) tail) in
    let here : lp + 1 ≡ length (pre ++ (length p ∷ [])) =
      omega (arith, at_, length-append pre (length p ∷ [])) in
    let got : slice message (lp + 1) (length p) ≡ p =
      ap (λ m. take (length p) (drop (lp + 1) m)) after
      ∙ ap (take (length p)) (drop-length-append (lp + 1) (pre ++ (length p ∷ [])) tail here)
      ∙ take-length-append (length p) p (offer_bytes ps ++ rest) refl in
    let pre' = (pre ++ (length p ∷ [])) ++ p in
    alpn_list-step fuel message lp list_end (length p) size
      (omega (arith, stop, length-append p (offer_bytes ps)))
    ∙ rw got (
        ap (λ xs. p ∷ xs)
          (alpn_list-reads fuel message pre' rest (lp + 1 + length p) list_end ps
            (after ∙ sym (append_assoc (pre ++ (length p ∷ [])) p (offer_bytes ps ++ rest)))
            (omega (arith, here, length-append (pre ++ (length p ∷ [])) p))
            (omega (arith, stop, length-append p (offer_bytes ps))) (omega (arith, few))))

-- Extensions, each with its type and its length.
abbrev pub extension_bytes : List (ℕ × List ℕ) → List ℕ
extension_bytes [] = []
extension_bytes ((ty, body) ∷ es) =
    to_be_bytes 2 ty ++ (to_be_bytes 2 (length body) ++ (body ++ extension_bytes es))

abbrev pub IsExtension : ℕ × List ℕ → Type 0
IsExtension (ty, body) = (ty < 2 ^ 16) × (length body < 2 ^ 16)

pub record Reads (message pre rest : List ℕ) (pos ty : ℕ) (body : List ℕ) : Type 0 where
  pub kind : u16_at message pos ≡ ty
  pub size : u16_at message (pos + 2) ≡ length body
  pub split : message ≡ (pre ++ (to_be_bytes 2 ty ++ to_be_bytes 2 (length body))) ++ (body ++ rest)

pub head-Reads :
    (message pre rest : List ℕ) (pos ty : ℕ) (body : List ℕ)
    → message ≡ pre ++ (to_be_bytes 2 ty ++ (to_be_bytes 2 (length body) ++ (body ++ rest)))
    → pos ≡ length pre
    → IsExtension (ty, body)
    → Reads message pre rest pos ty body
head-Reads message pre rest pos ty body e at_ small =
    let behind = to_be_bytes 2 (length body) ++ (body ++ rest) in
    let next : message ≡ (pre ++ to_be_bytes 2 ty) ++ behind =
      e ∙ sym (append_assoc pre (to_be_bytes 2 ty) behind) in
    record {
      kind = u16_at-skip message pre behind pos ty e at_ small.0;
      size =
          u16_at-skip message (pre ++ to_be_bytes 2 ty) (body ++ rest) (pos + 2) (length body) next
            (omega (arith, at_, length-append pre (to_be_bytes 2 ty))) small.1;
      split =
          e
          ∙ sym (append_assoc pre (to_be_bytes 2 ty ++ to_be_bytes 2 (length body)) (body ++ rest));
    }

alpn_loop-skips :
    (fuel : ℕ) (message : List ℕ) (pos ext_end ty elen : ℕ)
    → u16_at message pos ≡ ty
    → u16_at message (pos + 2) ≡ elen
    → (ty == alpn_type) ≡ false
    → pos + 4 + elen ≤ ext_end
    → alpn_loop (suc fuel) message pos ext_end ≡ alpn_loop fuel message (pos + 4 + elen) ext_end
unfolding alpn_loop
alpn_loop-skips fuel message pos ext_end ty elen t n no_alpn fits =
    let first : ltb ext_end (pos + 4) ≡ false = ground (arith, fits) in
    let second : ltb ext_end (pos + 4 + elen) ≡ false = ground (arith, fits) in
    rw (t, n, first, second, no_alpn) refl

alpn_loop-finds :
    (fuel : ℕ) (message : List ℕ) (pos ext_end elen list_len : ℕ)
    → u16_at message pos ≡ alpn_type
    → u16_at message (pos + 2) ≡ elen
    → u16_at message (pos + 4) ≡ list_len
    → 3 ≤ elen
    → list_len + 2 ≡ elen
    → pos + 4 + elen ≤ ext_end
    → alpn_loop (suc fuel) message pos ext_end
      ≡ alpn_list (length message) message (pos + 4 + 2) (pos + 4 + 2 + list_len)
unfolding alpn_loop
alpn_loop-finds fuel message pos ext_end elen list_len t n l long whole fits =
    let first : ltb ext_end (pos + 4) ≡ false = ground (arith, fits) in
    let second : ltb ext_end (pos + 4 + elen) ≡ false = ground (arith, fits) in
    let third : leb 3 elen ≡ true = ground (arith, long) in
    let stop : min (pos + 4 + 2 + list_len) (pos + 4 + elen) ≡ pos + 4 + 2 + list_len =
      omega (arith, whole) in
    rw (t, n, first, second, third, l, stop) refl

-- The body of an ALPN extension.
abbrev pub alpn_body : List (List ℕ) → List ℕ
alpn_body ps = to_be_bytes 2 (length (offer_bytes ps)) ++ offer_bytes ps

abbrev pub IsOther : ℕ × List ℕ → Type 0
IsOther (ty, body) = (ty == alpn_type) ≡ false

few_offers : (ps : List (List ℕ)) → length ps ≤ length (offer_bytes ps)
few_offers [] = omega arith
few_offers (p ∷ ps) = omega (arith, few_offers ps, length-append p (offer_bytes ps))

pub alpn_loop-reads :
    (fuel : ℕ) (message pre rest : List ℕ) (pos ext_end : ℕ) (before after : List (ℕ × List ℕ))
    (p : List ℕ) (ps : List (List ℕ))
    → message
      ≡ pre ++ (extension_bytes (before ++ ((alpn_type, alpn_body (p ∷ ps)) ∷ after)) ++ rest)
    → pos ≡ length pre
    → ext_end ≡ pos + length (extension_bytes (before ++ ((alpn_type, alpn_body (p ∷ ps)) ∷ after)))
    → All IsExtension (before ++ ((alpn_type, alpn_body (p ∷ ps)) ∷ after))
    → All IsOther before
    → length before < fuel
    → alpn_loop fuel message pos ext_end ≡ p ∷ ps
alpn_loop-reads zero message pre rest pos ext_end before after p ps e at_ stop sized others few =
    absurd (omega (arith, few))
alpn_loop-reads (suc fuel) message pre rest pos ext_end [] after p ps e at_ stop sized others few =
    let body = alpn_body (p ∷ ps) in
    let h =
      head-Reads message pre (extension_bytes after ++ rest) pos alpn_type body
        (e
          ∙ ap (λ xs. pre ++ (to_be_bytes 2 alpn_type ++ (to_be_bytes 2 (length body) ++ xs)))
              (append_assoc body (extension_bytes after) rest))
        at_ sized.0 in
    let offers = offer_bytes (p ∷ ps) in
    let heads = pre ++ (to_be_bytes 2 alpn_type ++ to_be_bytes 2 (length body)) in
    let behind = extension_bytes after ++ rest in
    let to_list : length heads ≡ pos + 4 =
      omega
        (arith, at_, length-append pre (to_be_bytes 2 alpn_type ++ to_be_bytes 2 (length body))) in
    let listed : u16_at message (pos + 4) ≡ length offers =
      u16_at-skip message heads (offers ++ behind) (pos + 4) (length offers) h.split (sym to_list)
        (omega (arith, sized.0.1)) in
    let in_list : message ≡ (heads ++ to_be_bytes 2 (length offers)) ++ (offers ++ behind) =
      h.split ∙ sym (append_assoc heads (to_be_bytes 2 (length offers)) (offers ++ behind)) in
    alpn_loop-finds fuel message pos ext_end (length body) (length offers) h.kind h.size listed
      (omega arith) (omega arith) (omega (arith, stop, length-append body (extension_bytes after)))
    ∙ alpn_list-reads (length message) message (heads ++ to_be_bytes 2 (length offers)) behind
        (pos + 4 + 2) (pos + 4 + 2 + length offers) (p ∷ ps) in_list
        (omega (arith, to_list, length-append heads (to_be_bytes 2 (length offers)))) refl
        (omega (
          arith,
          few_offers (p ∷ ps),
          ap length in_list,
          length-append (heads ++ to_be_bytes 2 (length offers)) (offers ++ behind),
          length-append offers behind,
        ))
alpn_loop-reads (suc fuel) message pre rest pos ext_end ((ty, body) ∷ before) after p ps e at_ stop
      sized others few =
    let es = before ++ ((alpn_type, alpn_body (p ∷ ps)) ∷ after) in
    let h =
      head-Reads message pre (extension_bytes es ++ rest) pos ty body
        (e
          ∙ ap (λ xs. pre ++ (to_be_bytes 2 ty ++ (to_be_bytes 2 (length body) ++ xs)))
              (append_assoc body (extension_bytes es) rest))
        at_ sized.0 in
    let pre' = (pre ++ (to_be_bytes 2 ty ++ to_be_bytes 2 (length body))) ++ body in
    alpn_loop-skips fuel message pos ext_end ty (length body) h.kind h.size others.0
      (omega (arith, stop, length-append body (extension_bytes es)))
    ∙ alpn_loop-reads fuel message pre' rest (pos + 4 + length body) ext_end before after p ps
        (h.split
          ∙ sym (
              append_assoc (pre ++ (to_be_bytes 2 ty ++ to_be_bytes 2 (length body))) body
                (extension_bytes es ++ rest)))
        (omega (
          arith,
          at_,
          length-append (pre ++ (to_be_bytes 2 ty ++ to_be_bytes 2 (length body))) body,
          length-append pre (to_be_bytes 2 ty ++ to_be_bytes 2 (length body)),
        ))
        (omega (arith, stop, length-append body (extension_bytes es))) sized.1 others.1
        (omega (arith, few))
