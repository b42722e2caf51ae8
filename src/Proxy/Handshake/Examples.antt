-- ===== src/Proxy/Handshake/Examples.antt =====
-- Openings under sample primitives: one that is accepted, once, and read on; one to a datacentre.
use Prim.Native.String.{String}
use v3mtp.Prelude.{
  ℕ, zero, suc, ◌+◌, ◌%◌, ◌≡◌, refl, sym, arith, Bool, true, false, List, [], ◌∷◌, ◌++◌, Option,
  none, some, Result, ok, inr, inl, length, length-replicate, take, drop, replicate, byte_at, All,
  IsByte, from_be_bytes, from_le_bytes, string_eq,
}
use mathlib.Core.Path.{subst}
use v3mtp.Crypto.Random.Sample.{sample, sample_rng}
use v3mtp.Crypto.Aes.{xor_blocks}
use v3mtp.Crypto.Ctr.{apply_keystream}
use v3mtp.Network.Addr.{SocketAddr, v4}
use v3mtp.Protocol.Constants.{ProtoTag, abridged, intermediate, secure, from_bytes}
use v3mtp.Protocol.Obfuscation.{Primitives, params, from_handshake}
use v3mtp.Protocol.Obfuscation.Handshake.{sealed, stream_of, tail_of}
use v3mtp.Protocol.Tls.{validate_tls_handshake, find_user}
use v3mtp.Protocol.Tls.Sealed
use v3mtp.Protocol.Tls.Sealed.{IsHmac}
use v3mtp.Stream.Io.{IoError}
use v3mtp.Stream.TlsStream.Sample.{drip, drip-Willing, narrow}
use v3mtp.Stream.CryptoStream.Reader
use v3mtp.Stream.CryptoStream.Reader.{CryptoReader, read_exact_decrypt}
use v3mtp.Stream.CryptoStream.Writer
use v3mtp.Stats.Replay.{add_only, ReplayChecker, check_and_add_internal}
use v3mtp.Stats.Replay
use v3mtp.Stats.Replay.Checker.{fresh, adds}
use v3mtp.Stats.Replay.Exact.{check_and_add_exact}
use v3mtp.Stats.Replay.Later.{at_once, then_adds}
use v3mtp.Stats.Replay.Sample.{sample_lru}
use v3mtp.Proxy.Handshake.{
  HandshakeConfig, ProxyModes, mode_ok, success, bad_client, find_success, handle_mtproto_handshake,
}
use v3mtp.Proxy.Handshake.Nonce.{prepared, encrypt_tg_nonce_with_ciphers}
use v3mtp.Proxy.Handshake.Datacentre.{datacentre_opens}
use v3mtp.Proxy.Handshake.Replay.{
  IsSuccess, accepted_once, digest_half, handle_tls_handshake-replayed,
}
use v3mtp.Proxy.Handshake.Greeting.{IsAnswer, IsGreeted, handle_tls_handshake-accepts}
use v3mtp.Proxy.Handshake.Session.{
  successes, success_of, find_success-from_handshake, accepted_session,
}
use v3mtp.Proxy.Handshake.Tls.{decoded_secrets, secret_of, handle_tls_handshake}

abbrev prims : Primitives
prims = record {
  sha256 = λ bs. length bs % 256 ∷ [];
  keystream = λ key iv i. (i + byte_at key 0) % 256;
  keystream-byte = λ key iv i. omega arith;
}

abbrev hex_decode : String → Option (List ℕ)
hex_decode text = some (5 ∷ 6 ∷ [])

abbrev modes : ProxyModes
modes = record { classic = true; secure_mode = true; tls = true }

all_on : (is_tls : Bool) (tag : ProtoTag) → mode_ok modes is_tls tag ≡ true
unfolding mode_ok
all_on is_tls abridged = refl
all_on is_tls intermediate = refl
all_on true secure = refl
all_on false secure = refl

abbrev config : HandshakeConfig
config = record {
  users = ("bob", "0506") ∷ [];
  modes = modes;
  crypto_pending_buffer = 0;
  ignore_time_skew = false;
  alpn_enforce = false;
  fake_cert_len = 100;
  tls_new_session_tickets = 0;
}

abbrev peer : SocketAddr
peer = record { ip = v4 1; port = 5000 }

abbrev front : List ℕ
front = replicate 56 9

abbrev bob_opening : List ℕ
bob_opening = sealed prims front (5 ∷ 6 ∷ []) (tail_of prims secure 2 (7 ∷ 7 ∷ []))

abbrev on_wire : List ℕ
on_wire = apply_keystream (stream_of prims front (5 ∷ 6 ∷ [])) 64 (1 ∷ 2 ∷ 3 ∷ [])

abbrev checker : ReplayChecker sample_lru
checker = Replay.new sample_lru 640 30

is_new :
    (check_and_add_internal sample_lru length (take 48 (drop 8 bob_opening)) 120 checker).0 ≡ false
is_new =
    check_and_add_exact sample_lru length {total = 640} {window = 30} {start = 100} (omega arith)
      (omega arith) (take 48 (drop 8 bob_opening)) 120 fresh (omega arith) (omega arith)

find_success-from_handshake_example :
    find_success prims hex_decode modes false peer bob_opening (("bob", "0506") ∷ [])
    ≡ successes peer false
        (from_handshake prims bob_opening (decoded_secrets hex_decode (("bob", "0506") ∷ [])))
find_success-from_handshake_example =
    find_success-from_handshake prims hex_decode modes false peer bob_opening (all_on false)
      (("bob", "0506") ∷ [])

accepted_session_example :
    ((handle_mtproto_handshake prims hex_decode sample_lru length drip narrow 120 bob_opening
        on_wire [] peer config checker false).0
      ≡ success (
        (Reader.new drip on_wire 64, Writer.new narrow [] 0 0),
        success_of peer false "bob" (params prims front (5 ∷ 6 ∷ []) secure 2),
      ))
    × ((r : CryptoReader drip) × (read_exact_decrypt drip
            (stream_of prims front (5 ∷ 6 ∷ []))
            4
            3
            (Reader.new drip on_wire 64)
          ≡ some (ok (1 ∷ 2 ∷ 3 ∷ []), r)))
unfolding decoded_secrets
accepted_session_example =
    accepted_session prims hex_decode sample_lru length drip narrow 120 front (5 ∷ 6 ∷ [])
      (7 ∷ 7 ∷ []) (1 ∷ 2 ∷ 3 ∷ []) secure 2 "bob" [] [] on_wire [] peer config checker false refl
      refl (omega arith, (omega arith, tt)) (omega arith) (all_on false) refl tt is_new refl
      (omega arith, (omega arith, (omega arith, tt))) drip-Willing

is_accepted :
    IsSuccess
      (handle_mtproto_handshake prims hex_decode sample_lru length drip narrow 120 bob_opening
        on_wire [] peer config checker false).0
unfolding decoded_secrets
is_accepted =
    subst IsSuccess
      (sym
        (accepted_session prims hex_decode sample_lru length drip narrow 120 front (5 ∷ 6 ∷ [])
          (7 ∷ 7 ∷ []) (1 ∷ 2 ∷ 3 ∷ []) secure 2 "bob" [] [] on_wire [] peer config checker false
          refl refl (omega arith, (omega arith, tt)) (omega arith) (all_on false) refl tt is_new
          refl (omega arith, (omega arith, (omega arith, tt))) drip-Willing).0)
      tt

-- Another opening is added in between.
abbrev after_first : ReplayChecker sample_lru
after_first =
    (handle_mtproto_handshake prims hex_decode sample_lru length drip narrow 120 bob_opening on_wire
      [] peer config checker false).1

accepted_once_example :
    (handle_mtproto_handshake prims hex_decode sample_lru length drip narrow 140 bob_opening [] []
      peer config
      (add_only sample_lru length (8 ∷ []) 130 after_first)
      true).0
    ≡ bad_client [] []
unfolding Replay.cutoff_of
accepted_once_example =
    accepted_once prims hex_decode sample_lru length drip narrow {total = 640} {window = 30}
      {start = 100} (omega arith) (omega arith) 120 140 bob_opening bob_opening on_wire [] [] []
      peer peer config config false true fresh (omega arith) is_accepted
      (then_adds (8 ∷ []) 130 at_once (omega arith)) (omega arith) refl (omega arith) (omega arith)

threes : (n : ℕ) → All IsByte (replicate n 3)
threes zero = tt
threes (suc n) = (omega arith, threes n)

datacentre_opens_example :
    (let g = prepared intermediate 4 (replicate 32 1) 77 true (replicate 64 3) in
      let sent = (encrypt_tg_nonce_with_ciphers prims g.nonce).0 in
      let key_iv = take 48 (drop 8 sent) in
      let opened =
        apply_keystream
          (prims.keystream (take 32 key_iv) (from_be_bytes (drop 32 key_iv)))
          0
          sent in
      (take 8 sent ≡ take 8 (replicate 64 3))
      × ((from_bytes (take 4 (drop 56 opened)) ≡ some intermediate)
          × (from_le_bytes (take 2 (drop 60 opened)) ≡ 4)))
datacentre_opens_example =
    datacentre_opens prims intermediate 4 (replicate 64 3) (replicate 32 1) 77 true refl (threes 64)
      refl (omega arith)

abbrev hmac : List ℕ → List ℕ → List ℕ
hmac secret msg = replicate 32 9

nines : (n : ℕ) → All IsByte (replicate n 9)
nines zero = tt
nines (suc n) = (omega arith, nines n)

hmac-IsHmac : IsHmac hmac
hmac-IsHmac secret msg = (length-replicate {A = ℕ} 32 9, nines 32)

-- A ClientHello with a session of one byte.
abbrev hello : List ℕ
hello = Sealed.sealed hmac (5 ∷ 6 ∷ []) 5 (replicate 11 1) (1 ∷ 9 ∷ [])

hello_new :
    (check_and_add_internal sample_lru length (take 16 (drop 11 hello)) 120 checker).0 ≡ false
hello_new =
    check_and_add_exact sample_lru length {total = 640} {window = 30} {start = 100} (omega arith)
      (omega arith) (take 16 (drop 11 hello)) 120 fresh (omega arith) (omega arith)

abbrev take_all : List ℕ → List ℕ → Result IoError (Unit {0}) × List ℕ
take_all bytes written = (ok tt, written ++ bytes)

handle_tls_handshake-accepts_example :
    (answer : List ℕ) × (IsAnswer hmac hex_decode sample sample_lru length drip narrow take_all none
        config
        (5 ∷ 6 ∷ [])
        hello
        sample_rng
        answer
      × IsGreeted hmac hex_decode sample sample_lru length drip narrow take_all [] [] "bob" answer
          (handle_tls_handshake hmac hex_decode sample sample_lru length drip narrow take_all 1000
            120 hello [] [] config none checker sample_rng).0.0)
unfolding decoded_secrets secret_of validate_tls_handshake find_user xor_blocks
handle_tls_handshake-accepts_example =
    handle_tls_handshake-accepts hmac hex_decode sample sample_lru length drip narrow take_all 1000
      120 "bob" (5 ∷ 6 ∷ []) (replicate 11 1) (1 ∷ 9 ∷ []) 5 [] [] [] [] config none checker
      sample_rng hmac-IsHmac (λ bytes writer _. refl) refl (omega arith) (inr (inl (omega arith)))
      refl refl (omega arith) refl hello_new

handle_tls_handshake-replayed_example :
    (handle_tls_handshake hmac hex_decode sample sample_lru length drip narrow take_all 1000 140
      hello [] [] config none
      (add_only sample_lru length (digest_half hello) 120 checker)
      sample_rng).0
    ≡ (bad_client [] [], sample_rng)
unfolding Replay.cutoff_of xor_blocks
handle_tls_handshake-replayed_example =
    handle_tls_handshake-replayed hmac hex_decode sample sample_lru length drip narrow take_all
      {total = 640} {window = 30} {start = 100} (omega arith) (omega arith) 1000 140 hello [] []
      config none sample_rng (adds (digest_half hello) 120 fresh (omega arith)) (omega arith)
      (omega arith) refl
