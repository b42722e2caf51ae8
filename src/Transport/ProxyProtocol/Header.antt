-- ===== src/Transport/ProxyProtocol/Header.antt =====
-- Headers of version 2: what the builder writes, the parser reads back.
use v3mtp.Prelude.{
  ℕ, ◌+◌, ◌/◌, ◌^◌, ◌≡◌, refl, ap, ap₂, arith, false, List, [], ◌∷◌, ◌++◌, Option, none, some,
  Result, ok, ◌>>=◌, length-append, take-length-append, drop-length-append, ◌*◌, length,
  to_be_bytes, from_le_bytes-to_le_bytes, bit_and, ltb,
}
use v3mtp.Network.Addr.{IpAddr, v4, v6, SocketAddr, IsSocketAddr}
use v3mtp.Transport.ProxyProtocol.{
  ProxyError, ProxyProtocolInfo, Detected, version_1, version_2, detect, parse_v2, parse_family,
  parse_command, ProxyProtocolV2Builder, with_addrs, new, build, no_addresses, proxy_v2_signature,
}

-- The parser of version 2 behind the detection; a line of version 1 is not its business.
abbrev pub parse_detected :
    SocketAddr → Detected → Result ProxyError (Option (ProxyProtocolInfo × List ℕ))
parse_detected peer (version_1 rest) = ok none
parse_detected peer (version_2 header rest) = parse_v2 header rest peer >>= λ r. ok (some r)

abbrev pub received : SocketAddr → List ℕ → Result ProxyError (Option (ProxyProtocolInfo × List ℕ))
received peer input = detect input >>= parse_detected peer

abbrev addr : IpAddr → ℕ → SocketAddr
addr ip port = record { ip = ip; port = port }

abbrev pub told : IpAddr → IpAddr → ℕ → ℕ → SocketAddr → ProxyProtocolInfo
told (v4 a) (v4 b) p q peer = record {
  src_addr = addr (v4 a) p;
  dst_addr = some (addr (v4 b) q);
  version = 2;
}
told (v6 a) (v6 b) p q peer = record {
  src_addr = addr (v6 a) p;
  dst_addr = some (addr (v6 b) q);
  version = 2;
}
told _ _ p q peer = no_addresses peer

-- The header and the address data, apart from each other.
detect-header :
    (a b c d : ℕ) (input : List ℕ)
    → detect (proxy_v2_signature ++ (a ∷ b ∷ c ∷ d ∷ input))
      ≡ ok (version_2 (proxy_v2_signature ++ (a ∷ b ∷ c ∷ d ∷ [])) input)
unfolding detect
detect-header a b c d input = ground arith

parse_v2-header :
    (a b c d : ℕ) (input rest : List ℕ) (peer : SocketAddr)
    → a / 2 ^ 4 ≡ 2
    → d + 256 * c ≡ length input
    → parse_v2 (proxy_v2_signature ++ (a ∷ b ∷ c ∷ d ∷ [])) (input ++ rest) peer
      ≡ (parse_command (bit_and a 0x0f) (b / 2 ^ 4) input peer >>= λ info. ok (info, rest))
unfolding parse_v2
parse_v2-header a b c d input rest peer v e =
    let size : d + 256 * (c + 256 * 0) ≡ length input = omega (arith, e) in
    let fits : ltb (length (input ++ rest)) (length input) ≡ false =
      ground (arith, length-append input rest) in
    rw (
      size,
      v,
      fits,
      take-length-append (length input) input rest refl,
      drop-length-append (length input) input rest refl,
    )

received_local :
    (peer : SocketAddr) (rest : List ℕ)
    → received peer (build new ++ rest) ≡ ok (some (no_addresses peer, rest))
unfolding build new parse_command
received_local peer rest =
    rw (detect-header 0x20 0 0 0 rest, parse_v2-header 0x20 0 0 0 [] rest peer refl refl)

received_pair :
    (s d : IpAddr) (p q : ℕ) (peer : SocketAddr) (rest : List ℕ)
    → IsSocketAddr (addr s p)
    → IsSocketAddr (addr d q)
    → received peer (build (with_addrs (addr s p) (addr d q) new) ++ rest)
      ≡ ok (some (told s d p q peer, rest))
unfolding build with_addrs new parse_command parse_family
received_pair (v4 a) (v4 b) p q peer rest h k =
    let input = to_be_bytes 4 a ++ (to_be_bytes 4 b ++ (to_be_bytes 2 p ++ to_be_bytes 2 q)) in
    rw
      (
        detect-header 0x21 0x11 0 12 (input ++ rest),
        parse_v2-header 0x21 0x11 0 12 input rest peer refl refl,
      )
      (ap (λ info. ok (some (info, rest)))
        (ap₂ (λ x y. record { src_addr = x; dst_addr = some y; version = 2 })
          (ap₂ (λ x y. addr (v4 x) y) (from_le_bytes-to_le_bytes 4 a h.0)
            (from_le_bytes-to_le_bytes 2 p h.1))
          (ap₂ (λ x y. addr (v4 x) y) (from_le_bytes-to_le_bytes 4 b k.0)
            (from_le_bytes-to_le_bytes 2 q k.1))))
received_pair (v6 a) (v6 b) p q peer rest h k =
    let input = to_be_bytes 16 a ++ (to_be_bytes 16 b ++ (to_be_bytes 2 p ++ to_be_bytes 2 q)) in
    rw
      (
        detect-header 0x21 0x21 0 36 (input ++ rest),
        parse_v2-header 0x21 0x21 0 36 input rest peer refl refl,
      )
      (ap (λ info. ok (some (info, rest)))
        (ap₂ (λ x y. record { src_addr = x; dst_addr = some y; version = 2 })
          (ap₂ (λ x y. addr (v6 x) y) (from_le_bytes-to_le_bytes 16 a h.0)
            (from_le_bytes-to_le_bytes 2 p h.1))
          (ap₂ (λ x y. addr (v6 x) y) (from_le_bytes-to_le_bytes 16 b k.0)
            (from_le_bytes-to_le_bytes 2 q k.1))))
received_pair (v4 a) (v6 b) p q peer rest h k = received_local peer rest
received_pair (v6 a) (v4 b) p q peer rest h k = received_local peer rest

-- What a builder tells the parser, which knows the peer of the connection.
abbrev pub told_by : Option SocketAddr → Option SocketAddr → SocketAddr → ProxyProtocolInfo
told_by (some src) (some dst) peer = told src.ip dst.ip src.port dst.port peer
told_by _ _ peer = no_addresses peer

abbrev pub IsGiven : Option SocketAddr → Type 0
IsGiven none = Unit
IsGiven (some a) = IsSocketAddr a

-- For every builder and whatever follows its header, the header is taken for one of version 2,
-- the parser reports the two addresses where both are given in one family, and else the peer
-- alone, and what follows is left in the stream.
pub received-build :
    (b : ProxyProtocolV2Builder) (peer : SocketAddr) (rest : List ℕ)
    → IsGiven b.src
    → IsGiven b.dst
    → received peer (build b ++ rest) ≡ ok (some (told_by b.src b.dst peer, rest))
unfolding build new
received-build b peer rest h k = by_cases b.src b.dst h k
  where
    by_cases :
        (src dst : Option SocketAddr)
        → IsGiven src
        → IsGiven dst
        → received peer (build (record { src = src; dst = dst }) ++ rest)
          ≡ ok (some (told_by src dst peer, rest))
    by_cases (some src) (some dst) h k =
        unfold with_addrs in received_pair src.ip dst.ip src.port dst.port peer rest h k
    by_cases (some src) none h k = received_local peer rest
    by_cases none (some dst) h k = received_local peer rest
    by_cases none none h k = received_local peer rest
