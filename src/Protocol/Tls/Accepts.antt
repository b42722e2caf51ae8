-- ===== src/Protocol/Tls/Accepts.antt =====
-- A ClientHello that was sealed with the secret of a user is taken for that user's.
use Prim.Native.String.{String}
use v3mtp.Prelude.{
  ℕ, zero, suc, ◌+◌, ◌^◌, ◌≤◌, ◌<◌, ◌≡◌, ◌⊎◌, inl, inr, refl, sym, ap, ap₂, ◌∙◌, arith, Bool, true,
  List, [], ◌∷◌, ◌++◌, none, some, length, length-append, take, drop, drop-drop, replicate, byte_at,
  to_le_bytes, from_le_bytes-to_le_bytes, to_le_bytes-bytes, take-length-append, drop-length-append,
  Bool-cases, le→ltb_false, All, All-append, IsByte,
}
use v3mtp.Crypto.Aes.{xor_blocks}
use v3mtp.Crypto.Aes.Chain.{length-xor_blocks, xor_blocks_cancel}
use v3mtp.Protocol.Tls.{timestamp_of, passes, blank, find_user, validate_tls_handshake}
use v3mtp.Protocol.Tls.Sealed.{mask, IsTimely, sealed, IsHmac, find_user-passes, find_user_skips}

All-zeros : (n : ℕ) → All IsByte (replicate n 0)
All-zeros zero = tt
All-zeros (suc n) = (omega arith, All-zeros n)

passes-mask :
    (now : ℕ) (ignore : Bool) (ts : ℕ)
    → ts < 2 ^ 32
    → (ignore ≡ true) ⊎ IsTimely now ts
    → (timestamp_of (mask ts) ≡ ts) × (passes now ignore (mask ts) ≡ true)
unfolding passes
passes-mask now ignore ts small ok_ =
    let e : timestamp_of (mask ts) ≡ ts = from_le_bytes-to_le_bytes 4 ts (omega (arith, small)) in
    (e, rw e (ground (arith, ok_)))

module _ (sha256_hmac : List ℕ → List ℕ → List ℕ) where
  find_user-append :
      (now : ℕ) (ignore : Bool) (digest session_id msg : List ℕ)
      (first second : List (String × List ℕ))
      → find_user sha256_hmac now ignore digest session_id msg first ≡ none
      → find_user sha256_hmac now ignore digest session_id msg (first ++ second)
        ≡ find_user sha256_hmac now ignore digest session_id msg second
  find_user-append now ignore digest session_id msg [] second h = refl
  find_user-append now ignore digest session_id msg ((user, secret) ∷ first) second h =
      elim (Bool-cases (passes now ignore (xor_blocks digest (sha256_hmac secret msg)))) [
        | inl p ↦ absurd (
            ground (
              arith,
              sym (
                    find_user-passes sha256_hmac now ignore digest session_id msg user secret first
                      p)
                  ∙ h,
            ))
        | inr p ↦
            find_user_skips sha256_hmac now ignore digest session_id msg user secret
              (first ++ second) p
            ∙ find_user-append now ignore digest session_id msg first second (
                sym
                  (find_user_skips sha256_hmac now ignore digest session_id msg user secret first p)
                ∙ h)
      ]

  abbrev digest_of : List ℕ → ℕ → List ℕ → List ℕ → List ℕ
  digest_of secret ts before after =
      xor_blocks (mask ts) (sha256_hmac secret (before ++ (replicate 32 0 ++ after)))

  -- The parts of a sealed ClientHello.
  module _ (secret before after : List ℕ) (ts : ℕ) (hmac : IsHmac sha256_hmac)
      (pos : length before ≡ 11) where
    length-mask : length (mask ts) ≡ 32
    length-mask = refl

    mask-bytes : All IsByte (mask ts)
    mask-bytes =
        All-append IsByte (replicate 28 0) (to_le_bytes 4 ts) (All-zeros 28)
          (to_le_bytes-bytes 4 ts)

    pub length-digest : length (digest_of secret ts before after) ≡ 32
    length-digest =
        length-xor_blocks (mask ts) (sha256_hmac secret (before ++ (replicate 32 0 ++ after)))
          (length-mask ∙ sym (hmac secret _).0)
        ∙ length-mask

    take-sealed : take 11 (sealed sha256_hmac secret ts before after) ≡ before
    take-sealed = take-length-append 11 before (digest_of secret ts before after ++ after) (sym pos)

    drop_11-sealed :
        drop 11 (sealed sha256_hmac secret ts before after)
        ≡ digest_of secret ts before after ++ after
    drop_11-sealed =
        drop-length-append 11 before (digest_of secret ts before after ++ after) (sym pos)

    drop_43-sealed : drop 43 (sealed sha256_hmac secret ts before after) ≡ after
    drop_43-sealed =
        drop-drop 11 32 (sealed sha256_hmac secret ts before after)
        ∙ ap (drop 32) drop_11-sealed
        ∙ drop-length-append 32 (digest_of secret ts before after) after (sym length-digest)

    digest-sealed :
        take 32 (drop 11 (sealed sha256_hmac secret ts before after))
        ≡ digest_of secret ts before after
    digest-sealed =
        ap (take 32) drop_11-sealed
        ∙ take-length-append 32 (digest_of secret ts before after) after (sym length-digest)

    unsealed :
        xor_blocks
          (digest_of secret ts before after)
          (sha256_hmac secret (before ++ (replicate 32 0 ++ after)))
        ≡ mask ts
    unsealed =
        xor_blocks_cancel (mask ts) (sha256_hmac secret (before ++ (replicate 32 0 ++ after)))
          (length-mask ∙ sym (hmac secret _).0) mask-bytes (hmac secret _).1

    blank-sealed :
        blank (sealed sha256_hmac secret ts before after) ≡ before ++ (replicate 32 0 ++ after)
    blank-sealed = ap₂ (λ xs ys. xs ++ (replicate 32 0 ++ ys)) take-sealed drop_43-sealed

    length-sealed : length (sealed sha256_hmac secret ts before after) ≡ 43 + length after
    length-sealed = omega (
      arith,
      pos,
      length-digest,
      length-append before (digest_of secret ts before after ++ after),
      length-append (digest_of secret ts before after) after,
    )

    find_user-sealed :
        (now : ℕ) (ignore : Bool) (session_id : List ℕ) (user : String)
        (first last : List (String × List ℕ))
        → ts < 2 ^ 32
        → (ignore ≡ true) ⊎ IsTimely now ts
        → find_user sha256_hmac now ignore
            (digest_of secret ts before after)
            session_id
            (before ++ (replicate 32 0 ++ after))
            first
          ≡ none
        → find_user sha256_hmac now ignore
            (digest_of secret ts before after)
            session_id
            (before ++ (replicate 32 0 ++ after))
            (first ++ ((user, secret) ∷ last))
          ≡ some (record {
            user = user;
            session_id = session_id;
            digest = digest_of secret ts before after;
            timestamp = ts;
          })
    find_user-sealed now ignore session_id user first last small timely none_first =
        let msg = before ++ (replicate 32 0 ++ after) in
        let digest = digest_of secret ts before after in
        let p = passes-mask now ignore ts small timely in
        find_user-append now ignore digest session_id msg first ((user, secret) ∷ last) none_first
        ∙ find_user-passes sha256_hmac now ignore digest session_id msg user secret last
            (rw unsealed p.1)
        ∙ ap
            (λ t.
              some
                (record { user = user; session_id = session_id; digest = digest; timestamp = t }))
            (ap timestamp_of unsealed ∙ p.0)

  validate-find_user :
      (now : ℕ) (h : List ℕ) (secrets : List (String × List ℕ)) (ignore : Bool)
      → 44 + byte_at h 43 ≤ length h
      → validate_tls_handshake sha256_hmac now h secrets ignore
        ≡ find_user sha256_hmac now ignore
            (take 32 (drop 11 h))
            (take (byte_at h 43) (drop 44 h))
            (blank h)
            secrets
  unfolding validate_tls_handshake
  validate-find_user now h secrets ignore fits =
      rw
        (
          le→ltb_false (length h) 44 (omega (arith, fits)),
          le→ltb_false (length h) (44 + byte_at h 43) fits,
        )
        refl

  -- Where HMAC gives 32 bytes: a ClientHello that was sealed with the secret of a user, over a time
  -- of 32 bits that fits the clock or is counted from the start of the client (or any time, where it
  -- is ignored), and that is long enough for its session, is taken for that user's, with that time,
  -- unless an earlier entry of the list accepts it.
  pub validate_tls_handshake-accepts :
      (now : ℕ) (user : String) (secret before after : List ℕ) (ts : ℕ) (ignore : Bool)
      (first last : List (String × List ℕ))
      → IsHmac sha256_hmac
      → length before ≡ 11
      → ts < 2 ^ 32
      → (ignore ≡ true) ⊎ IsTimely now ts
      → (let h = sealed sha256_hmac secret ts before after in
          44 + byte_at h 43 ≤ length h
          → validate_tls_handshake sha256_hmac now h first ignore ≡ none
          → validate_tls_handshake sha256_hmac now h (first ++ ((user, secret) ∷ last)) ignore
            ≡ some (record {
              user = user;
              session_id = take (byte_at h 43) (drop 44 h);
              digest = take 32 (drop 11 h);
              timestamp = ts;
            }))
  validate_tls_handshake-accepts now user secret before after ts ignore first last hmac pos small
        timely fits none_first =
      let h = sealed sha256_hmac secret ts before after in
      let session_id = take (byte_at h 43) (drop 44 h) in
      let d = digest-sealed secret before after ts hmac pos in
      let b = blank-sealed secret before after ts hmac pos in
      let earlier : find_user sha256_hmac now ignore (digest_of secret ts before after) session_id
            (before ++ (replicate 32 0 ++ after)) first
          ≡ none =
        ap₂ (λ x y. find_user sha256_hmac now ignore x session_id y first) (sym d) (sym b)
        ∙ sym (validate-find_user now h first ignore fits)
        ∙ none_first in
      validate-find_user now h (first ++ ((user, secret) ∷ last)) ignore fits
      ∙ ap₂
          (λ x y.
            find_user sha256_hmac now ignore x session_id y (first ++ ((user, secret) ∷ last)))
          d b
      ∙ find_user-sealed secret before after ts hmac pos now ignore session_id user first last small
          timely earlier
      ∙ ap (λ x. some (record { user = user; session_id = session_id; digest = x; timestamp = ts }))
          (sym d)
