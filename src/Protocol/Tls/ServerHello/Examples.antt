-- ===== src/Protocol/Tls/ServerHello/Examples.antt =====
-- The answer to a ClientHello without a session, under a sample HMAC and a sample source.
use v3mtp.Prelude.{
  ℕ, zero, suc, ◌≡◌, arith, List, [], ◌∷◌, ◌++◌, some, length-replicate, take, drop, replicate, All,
  IsByte,
}
use v3mtp.Crypto.Random.Sample.{sample, sample_rng}
use v3mtp.Protocol.Tls.{blank}
use v3mtp.Protocol.Tls.Sealed.{IsHmac}
use v3mtp.Protocol.Tls.ServerHello.{build_server_hello}
use v3mtp.Protocol.Tls.ServerHello.Digest.{build_server_hello-digest}

nines : (n : ℕ) → All IsByte (replicate n 9)
nines zero = tt
nines (suc n) = (omega arith, nines n)

abbrev nine_hmac : List ℕ → List ℕ → List ℕ
nine_hmac secret msg = replicate 32 9

nine_hmac-IsHmac : IsHmac nine_hmac
nine_hmac-IsHmac secret msg = (length-replicate {A = ℕ} 32 9, nines 32)

abbrev answer : List ℕ
answer =
    (build_server_hello sample nine_hmac (1 ∷ []) (replicate 32 7) [] 100 sample_rng
      (some (104 ∷ 50 ∷ [])) 1).0

build_server_hello-digest_example :
    take 32 (drop 11 answer) ≡ nine_hmac (1 ∷ []) (replicate 32 7 ++ blank answer)
build_server_hello-digest_example =
    build_server_hello-digest sample nine_hmac (1 ∷ []) (replicate 32 7) [] 100 sample_rng
      (some (104 ∷ 50 ∷ [])) 1 nine_hmac-IsHmac
