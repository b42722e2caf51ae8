-- ===== src/Protocol/Tls/Sealed.antt =====
-- A ClientHello that passes was sealed with the secret of its user.
use Prim.Native.String.{String}
use v3mtp.Prelude.{
  ℕ, ◌+◌, ◌*◌, ◌≤◌, ◌<◌, ◌≡◌, ◌⊎◌, inl, inr, refl, sym, ap, ap₂, ◌∙◌, arith, Bool, true, false,
  List, [], ◌∷◌, ◌++◌, some, length, length-take, length-drop, take, drop, drop-drop,
  take-append-drop, take-all, replicate, byte_at, from_le_bytes, to_le_bytes,
  to_le_bytes-from_le_bytes, ltb, Bool-cases, ltb_false→le, All, All-take, All-drop, IsByte,
}
use mathlib.Core.Path.{subst}
use v3mtp.Crypto.Aes.{xor_blocks}
use v3mtp.Crypto.Aes.Chain.{length-xor_blocks, xor_blocks-bytes, xor_blocks_cancel}
use v3mtp.Protocol.Tls.{
  TlsValidation, all_zero, timestamp_of, passes, blank, find_user, validate_tls_handshake,
}

abbrev pub In : String × List ℕ → List (String × List ℕ) → Type 0
In entry [] = ⊥
In entry (x ∷ xs) = (entry ≡ x) ⊎ In entry xs

-- The 32 bytes under a digest: zeros, and the time.
abbrev pub mask : ℕ → List ℕ
mask timestamp = replicate 28 0 ++ to_le_bytes 4 timestamp

-- The time of a ClientHello fits the clock, or is counted from the start of the client.
abbrev pub IsTimely : ℕ → ℕ → Type 0
IsTimely now timestamp =
    (timestamp < 60 * 60 * 24 * 1000) ⊎ ((timestamp ≤ now + 20 * 60) × (now ≤ timestamp + 10 * 60))

all_zero-replicate : (bs : List ℕ) → all_zero bs ≡ true → bs ≡ replicate (length bs) 0
all_zero-replicate [] h = refl
all_zero-replicate (b ∷ bs) h =
    ap₂ ◌∷◌ (ground (arith, h)) (all_zero-replicate bs (ground (arith, h)))

passes-mask :
    (now : ℕ) (ignore : Bool) (xored : List ℕ)
    → length xored ≡ 32
    → All IsByte xored
    → passes now ignore xored ≡ true
    → (xored ≡ mask (timestamp_of xored)) × ((ignore ≡ true) ⊎ IsTimely now (timestamp_of xored))
unfolding passes
passes-mask now ignore xored n bytes h =
    let tail = take 4 (drop 28 xored) in
    let whole : tail ≡ drop 28 xored =
      take-all 4 (drop 28 xored) (omega (arith, n, length-drop 28 xored)) in
    let size : length tail ≡ 4 =
      omega (arith, n, length-drop 28 xored, length-take 4 (drop 28 xored)) in
    let zeros : all_zero (take 28 xored) ≡ true = ground (arith, h) in
    let count : length (take 28 xored) ≡ 28 = omega (arith, n, length-take 28 xored) in
    let head : take 28 xored ≡ replicate 28 0 =
      all_zero-replicate (take 28 xored) zeros ∙ ap (λ k. replicate k 0) count in
    let back : to_le_bytes 4 (from_le_bytes tail) ≡ tail =
      ap (λ k. to_le_bytes k (from_le_bytes tail)) (sym size)
      ∙ to_le_bytes-from_le_bytes tail
          (All-take IsByte 4 (drop 28 xored) (All-drop IsByte 28 xored bytes)) in
    (sym (take-append-drop 28 xored) ∙ ap₂ ◌++◌ head (sym whole ∙ sym back), ground (arith, h))

module _ (sha256_hmac : List ℕ → List ℕ → List ℕ) where
  -- How a client seals a ClientHello: the digest of the whole with zeros in its place, over the time.
  abbrev pub sealed : List ℕ → ℕ → List ℕ → List ℕ → List ℕ
  sealed secret timestamp before after =
      before
      ++ (xor_blocks (mask timestamp) (sha256_hmac secret (before ++ (replicate 32 0 ++ after)))
          ++ after)

  abbrev pub IsHmac : Type 0
  IsHmac =
      (secret msg : List ℕ)
      → (length (sha256_hmac secret msg) ≡ 32) × All IsByte (sha256_hmac secret msg)

  abbrev Found :
      ℕ → Bool → List ℕ → List ℕ → List ℕ → List (String × List ℕ) → TlsValidation → Type 0
  Found now ignore digest session_id msg secrets v =
      (secret : List ℕ) × (In (v.user, secret) secrets
        × ((digest ≡ xor_blocks (mask v.timestamp) (sha256_hmac secret msg))
            × (((ignore ≡ true) ⊎ IsTimely now v.timestamp)
                × ((v.digest ≡ digest) × (v.session_id ≡ session_id)))))

  some_inj : {a b : TlsValidation} → some a ≡ some b → a ≡ b
  some_inj {a} {b} e = cc e

  pub find_user-passes :
      (now : ℕ) (ignore : Bool) (digest session_id msg : List ℕ) (user : String) (secret : List ℕ)
      (secrets : List (String × List ℕ))
      → passes now ignore (xor_blocks digest (sha256_hmac secret msg)) ≡ true
      → find_user sha256_hmac now ignore digest session_id msg ((user, secret) ∷ secrets)
        ≡ some (record {
          user = user;
          session_id = session_id;
          digest = digest;
          timestamp = timestamp_of (xor_blocks digest (sha256_hmac secret msg));
        })
  unfolding find_user
  find_user-passes now ignore digest session_id msg user secret secrets p = rw (p, find_user)

  pub find_user_skips :
      (now : ℕ) (ignore : Bool) (digest session_id msg : List ℕ) (user : String) (secret : List ℕ)
      (secrets : List (String × List ℕ))
      → passes now ignore (xor_blocks digest (sha256_hmac secret msg)) ≡ false
      → find_user sha256_hmac now ignore digest session_id msg ((user, secret) ∷ secrets)
        ≡ find_user sha256_hmac now ignore digest session_id msg secrets
  unfolding find_user
  find_user_skips now ignore digest session_id msg user secret secrets p = rw (p, find_user)

  found :
      (now : ℕ) (ignore : Bool) (digest session_id msg : List ℕ) (secrets : List (String × List ℕ))
      (v : TlsValidation)
      → IsHmac
      → length digest ≡ 32
      → All IsByte digest
      → find_user sha256_hmac now ignore digest session_id msg secrets ≡ some v
      → Found now ignore digest session_id msg secrets v
  unfolding find_user
  found now ignore digest session_id msg [] v hmac n bytes h = absurd (ground (arith, h))
  found now ignore digest session_id msg ((user, secret) ∷ secrets) v hmac n bytes h =
      let computed = sha256_hmac secret msg in
      let xored = xor_blocks digest computed in
      elim (Bool-cases (passes now ignore xored)) [
        | inl p ↦
            let m =
              passes-mask now ignore xored
                (length-xor_blocks digest computed (n ∙ sym (hmac secret msg).0) ∙ n)
                (xor_blocks-bytes digest computed bytes (hmac secret msg).1) p in
            let back : xor_blocks xored computed ≡ digest =
              xor_blocks_cancel digest computed (n ∙ sym (hmac secret msg).0) bytes
                (hmac secret msg).1 in
            let e =
              sym (find_user-passes now ignore digest session_id msg user secret secrets p) ∙ h in
            subst (Found now ignore digest session_id msg ((user, secret) ∷ secrets)) (some_inj e) (
              secret,
              (inl refl, (sym back ∙ ap (λ xs. xor_blocks xs computed) m.0, (m.1, (refl, refl)))),
            )
        | inr p ↦
            let (s, (listed, rest)) =
              found now ignore digest session_id msg secrets v hmac n bytes (
                sym (find_user_skips now ignore digest session_id msg user secret secrets p) ∙ h) in
            (s, (inr listed, rest))
      ]

  split_hello : (h : List ℕ) → take 11 h ++ (take 32 (drop 11 h) ++ drop 43 h) ≡ h
  split_hello h =
      ap (λ xs. take 11 h ++ (take 32 (drop 11 h) ++ xs)) (drop-drop 11 32 h)
      ∙ ap (λ xs. take 11 h ++ xs) (take-append-drop 32 (drop 11 h))
      ∙ take-append-drop 11 h

  -- Where HMAC gives 32 bytes: a ClientHello of bytes that is taken for one of a user was sealed
  -- with a secret that the list has for that user, over the time that the result reports, which fits
  -- the clock, or is counted from the start of the client, unless the time is ignored; and the
  -- result has the digest and the session of the ClientHello.
  pub validate_tls_handshake-sealed :
      (now : ℕ) (handshake : List ℕ) (secrets : List (String × List ℕ)) (ignore : Bool)
      (v : TlsValidation)
      → IsHmac
      → All IsByte handshake
      → validate_tls_handshake sha256_hmac now handshake secrets ignore ≡ some v
      → (secret : List ℕ) × (In (v.user, secret) secrets
          × ((handshake ≡ sealed secret v.timestamp (take 11 handshake) (drop 43 handshake))
              × (((ignore ≡ true) ⊎ IsTimely now v.timestamp)
                  × ((v.digest ≡ take 32 (drop 11 handshake))
                      × (v.session_id ≡ take (byte_at handshake 43) (drop 44 handshake))))))
  unfolding validate_tls_handshake
  validate_tls_handshake-sealed now handshake secrets ignore v hmac bytes h =
      elim (Bool-cases (ltb (length handshake) 44)) [
        | inl short ↦ absurd (ground (arith, short, h))
        | inr long ↦ elim (Bool-cases (ltb (length handshake) (44 + byte_at handshake 43))) [
          | inl short ↦ absurd (ground (arith, long, short, h))
          | inr enough ↦
              let (secret, (listed, (digest, (timely, rest)))) =
                found now ignore (take 32 (drop 11 handshake))
                  (take (byte_at handshake 43) (drop 44 handshake)) (blank handshake) secrets v hmac
                  (omega (
                    arith,
                    ltb_false→le (length handshake) 44 long,
                    length-take 32 (drop 11 handshake),
                    length-drop 11 handshake,
                  ))
                  (All-take IsByte 32 (drop 11 handshake) (All-drop IsByte 11 handshake bytes))
                  (rw (long, enough) at h) in
              (
                secret,
                (
                  listed,
                  (
                    sym (split_hello handshake)
                        ∙ ap (λ xs. take 11 handshake ++ (xs ++ drop 43 handshake)) digest,
                    (timely, rest),
                  ),
                ),
              )
        ]
      ]
