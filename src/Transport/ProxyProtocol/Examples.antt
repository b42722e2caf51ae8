-- ===== src/Transport/ProxyProtocol/Examples.antt =====
-- Headers between two sample hosts.
use v3mtp.Prelude.{◌≡◌, refl, arith, [], ◌∷◌, ◌++◌, some, ok, err, replicate}
use v3mtp.Network.Addr.{v4, SocketAddr}
use v3mtp.Transport.ProxyProtocol.{
  invalid_proxy_protocol, detect, build, ProxyProtocolV2Builder, proxy_v1_signature, version_1,
}
use v3mtp.Transport.ProxyProtocol.Header.{received, told, received-build}

abbrev host : SocketAddr
host = record { ip = v4 0xc0a80001; port = 443 }

abbrev guest : SocketAddr
guest = record { ip = v4 0x0a000007; port = 50000 }

garbage_refused : detect (replicate 20 7) ≡ err invalid_proxy_protocol
unfolding detect
garbage_refused = refl

line_detected : detect (proxy_v1_signature ++ (0x55 ∷ [])) ≡ ok (version_1 (0x55 ∷ []))
unfolding detect
line_detected = refl

abbrev both : ProxyProtocolV2Builder
both = record { src = some guest; dst = some host }

received-build_example :
    received host (build both ++ (1 ∷ 2 ∷ []))
    ≡ ok (some (told guest.ip host.ip 50000 443 host, 1 ∷ 2 ∷ []))
received-build_example =
    received-build both host (1 ∷ 2 ∷ []) (omega arith, omega arith) (omega arith, omega arith)
