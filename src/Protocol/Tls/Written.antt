-- ===== src/Protocol/Tls/Written.antt =====
-- A whole ClientHello as a client writes it, and what the readers of `Tls/ClientHello` find in it.
use v3mtp.Prelude.{
  append-nil, le→ltb_false, get_or-append_lt, ℕ, ◌+◌, ◌^◌, ◌≤◌, ◌<◌, ◌≡◌, refl, sym, ap, ◌∙◌, arith,
  true, ◌&&◌, List, [], ◌∷◌, ◌++◌, append_assoc, some, length, length-append, byte_at, ltb, ◌==◌,
  to_be_bytes, All,
}
use mathlib.Core.Path.{subst}
use v3mtp.Protocol.Tls.ServerHello.{alpn_type}
use v3mtp.Protocol.Tls.ClientHello.{
  u16_at, extension_range, alpn_loop, extract_alpn_from_client_hello,
}
use v3mtp.Protocol.Tls.Offered.{
  byte_at-skip, u16_at-skip, extension_bytes, IsExtension, IsOther, alpn_body, alpn_loop-reads,
}

-- A ClientHello: the record's head, the version and the random bytes (`intro`), and four lists behind their lengths.
pub record Hello : Type 0 where
  pub intro : List ℕ
  pub session : List ℕ
  pub ciphers : List ℕ
  pub compressions : List ℕ
  pub extensions : List (ℕ × List ℕ)

abbrev pub hello_bytes : Hello → List ℕ
hello_bytes h =
    let exts = extension_bytes h.extensions in
    h.intro
    ++ (length h.session
        ∷ (h.session
            ++ (to_be_bytes 2 (length h.ciphers)
                ++ (h.ciphers
                    ++ (length h.compressions
                        ∷ (h.compressions ++ (to_be_bytes 2 (length exts) ++ exts)))))))

pub record IsHello (h : Hello) : Type 0 where
  pub intro_size : length h.intro ≡ 43
  pub ciphers_size : length h.ciphers < 2 ^ 16
  pub extensions_size : length (extension_bytes h.extensions) < 2 ^ 16
  pub sized : All IsExtension h.extensions

range_of :
    (m : List ℕ) (a b c d : ℕ)
    → byte_at m 43 ≡ a
    → u16_at m (43 + (1 + a)) ≡ b
    → byte_at m (43 + (1 + a) + (2 + b)) ≡ c
    → u16_at m (43 + (1 + a) + (2 + b) + (1 + c)) ≡ d
    → 43 + (1 + a) + (2 + b) + (1 + c) + 2 + d ≤ length m
    → extension_range m
      ≡ some (43 + (1 + a) + (2 + b) + (1 + c) + 2, 43 + (1 + a) + (2 + b) + (1 + c) + 2 + d)
unfolding extension_range
range_of m a b c d at_a at_b at_c at_d fits =
    rw
      (
        at_a,
        at_b,
        at_c,
        at_d,
        le→ltb_false (length m) 44 (omega (arith, fits)),
        le→ltb_false (length m) (43 + (1 + a) + 2) (omega (arith, fits)),
        le→ltb_false (length m) (43 + (1 + a) + (2 + b) + 1) (omega (arith, fits)),
        le→ltb_false (length m) (43 + (1 + a) + (2 + b) + (1 + c) + 2) (omega (arith, fits)),
        le→ltb_false (length m) (43 + (1 + a) + (2 + b) + (1 + c) + 2 + d) fits,
      )
      refl

pub extension_range_lem :
    (h : Hello)
    → IsHello h
    → (pre : List ℕ) × ((hello_bytes h ≡ pre ++ extension_bytes h.extensions)
        × (extension_range (hello_bytes h)
            ≡ some (length pre, length pre + length (extension_bytes h.extensions))))
extension_range_lem h is =
    let exts = extension_bytes h.extensions in
    let r4 = to_be_bytes 2 (length exts) ++ exts in
    let r3 = length h.compressions ∷ (h.compressions ++ r4) in
    let r2 = to_be_bytes 2 (length h.ciphers) ++ (h.ciphers ++ r3) in
    let p1 = h.intro ++ (length h.session ∷ []) in
    let p2 = p1 ++ h.session in
    let p2' = p2 ++ to_be_bytes 2 (length h.ciphers) in
    let p3 = p2' ++ h.ciphers in
    let p3' = p3 ++ (length h.compressions ∷ []) in
    let p4 = p3' ++ h.compressions in
    let p5 = p4 ++ to_be_bytes 2 (length exts) in
    let m = hello_bytes h in
    let e2 : m ≡ p2 ++ r2 =
      sym (append_assoc h.intro (length h.session ∷ []) (h.session ++ r2))
      ∙ sym (append_assoc p1 h.session r2) in
    let e3 : m ≡ p3 ++ r3 =
      e2
      ∙ sym (append_assoc p2 (to_be_bytes 2 (length h.ciphers)) (h.ciphers ++ r3))
      ∙ sym (append_assoc p2' h.ciphers r3) in
    let e4 : m ≡ p4 ++ r4 =
      e3
      ∙ sym (append_assoc p3 (length h.compressions ∷ []) (h.compressions ++ r4))
      ∙ sym (append_assoc p3' h.compressions r4) in
    let e5 : m ≡ p5 ++ exts = e4 ∙ sym (append_assoc p4 (to_be_bytes 2 (length exts)) exts) in
    let l2 : length p2 ≡ 43 + (1 + length h.session) = omega (
      arith,
      is.intro_size,
      length-append p1 h.session,
      length-append h.intro (length h.session ∷ []),
    ) in
    let l3 : length p3 ≡ length p2 + (2 + length h.ciphers) =
      omega
        (arith, length-append p2' h.ciphers, length-append p2 (to_be_bytes 2 (length h.ciphers))) in
    let l4 : length p4 ≡ length p3 + (1 + length h.compressions) =
      omega
        (arith, length-append p3' h.compressions, length-append p3 (length h.compressions ∷ [])) in
    let l5 : length p5 ≡ length p4 + 2 =
      omega (arith, length-append p4 (to_be_bytes 2 (length exts))) in
    let at43 : byte_at m 43 ≡ length h.session =
      byte_at-skip h.intro (length h.session ∷ (h.session ++ r2)) 43 0
        (omega (arith, is.intro_size)) in
    (
      p5,
      (
        e5,
        range_of m (length h.session) (length h.ciphers) (length h.compressions) (length exts) at43
              (u16_at-skip m p2 (h.ciphers ++ r3) (43 + (1 + length h.session)) (length h.ciphers)
                e2 (sym l2) is.ciphers_size)
              (ap (λ xs. byte_at xs (43 + (1 + length h.session) + (2 + length h.ciphers))) e3
                ∙ byte_at-skip p3 r3 (43 + (1 + length h.session) + (2 + length h.ciphers)) 0
                    (omega (arith, l2, l3)))
              (u16_at-skip m p4 exts
                (43 + (1 + length h.session) + (2 + length h.ciphers) + (1 + length h.compressions))
                (length exts) e4 (omega (arith, l2, l3, l4)) is.extensions_size)
              (omega (arith, ap length e5, length-append p5 exts, l2, l3, l4, l5))
            ∙ ap (λ n. some (n, n + length exts)) (omega (arith, l2, l3, l4, l5)),
      ),
    )

pub hello_long : (h : Hello) → IsHello h → 43 ≤ length (hello_bytes h)
hello_long h is = omega (arith, is.intro_size, length-append h.intro _)

pub few_extensions : (es : List (ℕ × List ℕ)) → length es ≤ length (extension_bytes es)
few_extensions [] = omega arith
few_extensions ((ty, body) ∷ es) =
    omega (arith, few_extensions es, length-append body (extension_bytes es))

alpn_of :
    (m : List ℕ) (pos ext_end : ℕ)
    → 43 ≤ length m
    → byte_at m 5 ≡ 1
    → extension_range m ≡ some (pos, ext_end)
    → extract_alpn_from_client_hello m ≡ alpn_loop (length m) m pos ext_end
unfolding extract_alpn_from_client_hello
alpn_of m pos ext_end long head range =
    let first : (ltb 5 (length m) && (byte_at m 5 == 1)) ≡ true = ground (arith, long, head) in
    rw (first, range) refl

-- A ClientHello that a client wrote, with its head, and with protocols offered in an extension behind others of any kind, gives these protocols, in the order in
-- which they are offered.
pub extract_alpn_from_client_hello-offered :
    (h : Hello) (before after : List (ℕ × List ℕ)) (p : List ℕ) (ps : List (List ℕ))
    → IsHello h
    → byte_at h.intro 5 ≡ 0x01
    → h.extensions ≡ before ++ ((alpn_type, alpn_body (p ∷ ps)) ∷ after)
    → All IsOther before
    → extract_alpn_from_client_hello (hello_bytes h) ≡ p ∷ ps
extract_alpn_from_client_hello-offered h before after p ps is kind offered others =
    let (pre, (split, range)) = extension_range_lem h is in
    let m = hello_bytes h in
    let es = before ++ ((alpn_type, alpn_body (p ∷ ps)) ∷ after) in
    let size = ap length split ∙ length-append pre (extension_bytes h.extensions) in
    let bytes : extension_bytes h.extensions ≡ extension_bytes es = ap extension_bytes offered in
    let head : byte_at m 5 ≡ 1 =
      get_or-append_lt h.intro _ 5 0 (omega (arith, is.intro_size)) ∙ kind in
    let long = hello_long h is in
    alpn_of m (length pre) (length pre + length (extension_bytes h.extensions)) long head range
    ∙ alpn_loop-reads (length m) m pre [] (length pre)
        (length pre + length (extension_bytes h.extensions)) before after p ps
        (split ∙ ap (λ xs. pre ++ xs) (bytes ∙ sym (append-nil (extension_bytes es)))) refl
        (omega (arith, ap length bytes)) (subst (All IsExtension) offered is.sized) others
        (omega (
          arith,
          size,
          ap length bytes,
          few_extensions es,
          length-append before ((alpn_type, alpn_body (p ∷ ps)) ∷ after),
        ))
