-- ===== src/Protocol/Tls/Examples.antt =====
-- A ClientHello under a sample HMAC.
use Prim.Native.String.{String}
use v3mtp.Prelude.{
  ℕ, zero, suc, ◌≡◌, ◌⊎◌, inl, inr, refl, arith, true, false, List, [], ◌∷◌, ◌++◌, some,
  length-replicate, take, drop, replicate, byte_at, All, All-append, IsByte,
}
use v3mtp.Crypto.Aes.{xor_blocks}
use v3mtp.Protocol.Tls.{TlsValidation, passes, find_user, validate_tls_handshake}
use v3mtp.Protocol.Tls.Sealed.{In, IsTimely, IsHmac, sealed, validate_tls_handshake-sealed}
use v3mtp.Protocol.Tls.Accepts.{validate_tls_handshake-accepts}

sevens : (n : ℕ) → All IsByte (replicate n 7)
sevens zero = tt
sevens (suc n) = (omega arith, sevens n)

abbrev sample_hmac : List ℕ → List ℕ → List ℕ
sample_hmac secret msg = replicate 32 7

sample-IsHmac : IsHmac sample_hmac
sample-IsHmac secret msg = (length-replicate {A = ℕ} 32 7, sevens 32)

abbrev secrets : List (String × List ℕ)
secrets = ("alice", 1 ∷ []) ∷ []

abbrev intro : List ℕ
intro = 22 ∷ 3 ∷ 1 ∷ 2 ∷ 0 ∷ 1 ∷ 0 ∷ 1 ∷ 252 ∷ 3 ∷ 3 ∷ []

-- 32 bytes of a digest over the time 5, and a session of one byte.
abbrev hello : List ℕ
hello = intro ++ (replicate 28 7 ++ (2 ∷ 7 ∷ 7 ∷ 7 ∷ 1 ∷ 9 ∷ []))

abbrev report : TlsValidation
report = record {
  user = "alice";
  session_id = 9 ∷ [];
  digest = replicate 28 7 ++ (2 ∷ 7 ∷ 7 ∷ 7 ∷ []);
  timestamp = 5;
}

hello_bytes : All IsByte hello
hello_bytes = (
  omega arith,
  (
    omega arith,
    (
      omega arith,
      (
        omega arith,
        (
          omega arith,
          (
            omega arith,
            (omega arith, (omega arith, (omega arith, (omega arith, (omega arith, more))))),
          ),
        ),
      ),
    ),
  ),
)
  where
    more : All IsByte (replicate 28 7 ++ (2 ∷ 7 ∷ 7 ∷ 7 ∷ 1 ∷ 9 ∷ []))
    more =
        All-append IsByte (replicate 28 7) (2 ∷ 7 ∷ 7 ∷ 7 ∷ 1 ∷ 9 ∷ []) (sevens 28) (
          omega arith,
          (omega arith, (omega arith, (omega arith, (omega arith, (omega arith, tt))))),
        )

accepted : validate_tls_handshake sample_hmac 1000 hello secrets false ≡ some report
unfolding validate_tls_handshake find_user passes xor_blocks
accepted = refl

validate_tls_handshake-sealed_example :
    (secret : List ℕ) × (In ("alice", secret) secrets
      × ((hello ≡ sealed sample_hmac secret 5 (take 11 hello) (drop 43 hello))
          × (((false ≡ true) ⊎ IsTimely 1000 5)
              × ((report.digest ≡ take 32 (drop 11 hello))
                  × (report.session_id ≡ take (byte_at hello 43) (drop 44 hello))))))
validate_tls_handshake-sealed_example =
    validate_tls_handshake-sealed sample_hmac 1000 hello secrets false report sample-IsHmac
      hello_bytes accepted

validate_tls_handshake-accepts_example :
    validate_tls_handshake sample_hmac 1000
      (sealed sample_hmac (1 ∷ []) 5 intro (1 ∷ 9 ∷ []))
      secrets
      false
    ≡ some (record {
      user = "alice";
      session_id =
          take
            (byte_at (sealed sample_hmac (1 ∷ []) 5 intro (1 ∷ 9 ∷ [])) 43)
            (drop 44 (sealed sample_hmac (1 ∷ []) 5 intro (1 ∷ 9 ∷ [])));
      digest = take 32 (drop 11 (sealed sample_hmac (1 ∷ []) 5 intro (1 ∷ 9 ∷ [])));
      timestamp = 5;
    })
unfolding validate_tls_handshake find_user xor_blocks
validate_tls_handshake-accepts_example =
    validate_tls_handshake-accepts sample_hmac 1000 "alice" (1 ∷ []) intro (1 ∷ 9 ∷ []) 5 false []
      [] sample-IsHmac refl (omega arith) (inr (inl (omega arith))) (omega arith) refl
