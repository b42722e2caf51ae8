-- ===== src/Protocol/Tls/ClientHello/Examples.antt =====
-- A ClientHello with a host name and two protocols.
use Prim.Native.String.{String}
use v3mtp.Prelude.{ℕ, ◌≡◌, refl, arith, List, [], ◌∷◌, Option, some, replicate}
use v3mtp.Protocol.Tls.ServerHello.{alpn_type}
use v3mtp.Protocol.Tls.ClientHello.{extract_alpn_from_client_hello, extract_sni_from_client_hello}
use v3mtp.Protocol.Tls.Offered.{alpn_body}
use v3mtp.Protocol.Tls.Written.{Hello, hello_bytes, IsHello, extract_alpn_from_client_hello-offered}
use v3mtp.Protocol.Tls.Named.{sni_body, extract_sni_from_client_hello-named}

abbrev offers : List (List ℕ)
offers = (104 ∷ 50 ∷ []) ∷ (104 ∷ 51 ∷ []) ∷ []

abbrev greeting : Hello
greeting = record {
  intro = 0x16 ∷ 3 ∷ 1 ∷ 2 ∷ 0 ∷ 1 ∷ 0 ∷ 1 ∷ 252 ∷ 3 ∷ 3 ∷ replicate 32 9;
  session = 1 ∷ 2 ∷ [];
  ciphers = 19 ∷ 1 ∷ [];
  compressions = 0 ∷ [];
  extensions = (0, sni_body (97 ∷ 98 ∷ [])) ∷ (alpn_type, alpn_body offers) ∷ [];
}

greeting-IsHello : IsHello greeting
greeting-IsHello = record {
  intro_size = refl;
  ciphers_size = omega arith;
  extensions_size = omega arith;
  sized = ((omega arith, omega arith), ((omega arith, omega arith), tt));
}

extract_alpn_from_client_hello-offered_example :
    extract_alpn_from_client_hello (hello_bytes greeting) ≡ offers
extract_alpn_from_client_hello-offered_example =
    extract_alpn_from_client_hello-offered greeting ((0, sni_body (97 ∷ 98 ∷ [])) ∷ []) []
      (104 ∷ 50 ∷ []) ((104 ∷ 51 ∷ []) ∷ []) greeting-IsHello refl refl (refl, tt)

abbrev ascii : List ℕ → Option String
ascii bytes = some "ab"

extract_sni_from_client_hello-named_example :
    extract_sni_from_client_hello ascii (hello_bytes greeting) ≡ some "ab"
extract_sni_from_client_hello-named_example =
    extract_sni_from_client_hello-named ascii greeting [] ((alpn_type, alpn_body offers) ∷ [])
      (97 ∷ 98 ∷ []) "ab" greeting-IsHello refl refl refl tt (omega arith) refl
