-- ===== src/Transport/ProxyProtocol.antt =====
-- src/transport/proxy_protocol.rs: the PROXY header that a load balancer puts before a connection.
-- A stream is the list of bytes to come. Version 1, a line of text, is recognised and not read.
pub mod Header
mod Examples
use v3mtp.Prelude.{
  same_bytes, ℕ, ◌+◌, ◌/◌, ◌%◌, ◌^◌, Bool, true, false, ◌&&◌, List, [], ◌∷◌, ◌++◌, Option, none,
  some, Result, ok, err, ◌>>=◌, length, take, drop, byte_at, to_be_bytes, from_be_bytes, bit_and,
  ltb, leb, ◌==◌, if◌then◌else◌,
}
use v3mtp.Network.Addr.{IpAddr, v4, v6, SocketAddr, octets}

pub data ProxyError : Type 0 where
  invalid_proxy_protocol : ProxyError

-- `b"PROXY "`.
abbrev pub proxy_v1_signature : List ℕ
proxy_v1_signature = 0x50 ∷ 0x52 ∷ 0x4f ∷ 0x58 ∷ 0x59 ∷ 0x20 ∷ []

abbrev pub proxy_v2_signature : List ℕ
proxy_v2_signature =
    0x0d ∷ 0x0a ∷ 0x0d ∷ 0x0a ∷ 0x00 ∷ 0x0d ∷ 0x0a ∷ 0x51 ∷ 0x55 ∷ 0x49 ∷ 0x54 ∷ 0x0a ∷ []

pub record ProxyProtocolInfo : Type 0 where
  pub src_addr : SocketAddr
  pub dst_addr : Option SocketAddr
  pub version : ℕ

-- What `parse_proxy_protocol` has found once it chooses between its two parsers: the header of
-- version 2, and in both cases what the stream still holds.
pub data Detected : Type 0 where
  version_1 : List ℕ → Detected
  version_2 : List ℕ → List ℕ → Detected

unfoldable pub detect : List ℕ → Result ProxyError Detected
detect input =
    if ltb (length input) 6
    then err invalid_proxy_protocol
    else if same_bytes (take 6 input) proxy_v1_signature
    then ok (version_1 (drop 6 input))
    else if ltb (length input) 16
    then err invalid_proxy_protocol
    else if same_bytes (take 12 input) proxy_v2_signature
    then ok (version_2 (take 16 input) (drop 16 input))
    else err invalid_proxy_protocol

-- Two addresses of `n` octets, then two ports.
abbrev address_pair : (ℕ → IpAddr) → ℕ → List ℕ → ProxyProtocolInfo
address_pair family n addr_data =
    let ports = drop (n + n) addr_data in
    record {
      src_addr = record {
        ip = family (from_be_bytes (take n addr_data));
        port = from_be_bytes (take 2 ports);
      };
      dst_addr = some (record {
        ip = family (from_be_bytes (take n (drop n addr_data)));
        port = from_be_bytes (take 2 (drop 2 ports));
      });
      version = 2;
    }

abbrev no_addresses : SocketAddr → ProxyProtocolInfo
no_addresses default_peer = record { src_addr = default_peer; dst_addr = none; version = 2 }

-- `match family`.
unfoldable pub parse_family : ℕ → List ℕ → SocketAddr → Result ProxyError ProxyProtocolInfo
parse_family family addr_data default_peer =
    if (family == 1) && leb 12 (length addr_data)
    then ok (address_pair v4 4 addr_data)
    else if (family == 2) && leb 36 (length addr_data)
    then ok (address_pair v6 16 addr_data)
    else if family == 0
    then ok (no_addresses default_peer)
    else err invalid_proxy_protocol

-- From the command on, when the address data has been read.
unfoldable pub parse_command : ℕ → ℕ → List ℕ → SocketAddr → Result ProxyError ProxyProtocolInfo
unfolding parse_family
parse_command command family addr_data default_peer =
    if command == 0
    then ok (no_addresses default_peer)
    else if command == 1
    then parse_family family addr_data default_peer
    else err invalid_proxy_protocol

-- The information, and what the stream still holds.
unfoldable pub parse_v2 :
    List ℕ → List ℕ → SocketAddr → Result ProxyError (ProxyProtocolInfo × List ℕ)
unfolding parse_command
parse_v2 header input default_peer =
    let version_command = byte_at header 12 in
    let addr_len = from_be_bytes (take 2 (drop 14 header)) in
    if version_command / 2 ^ 4 == 2
    then (if ltb (length input) addr_len
        then err invalid_proxy_protocol
        else parse_command (bit_and version_command 0x0f) (byte_at header 13 / 2 ^ 4)
            (take addr_len input) default_peer
          >>= λ info. ok (info, drop addr_len input))
    else err invalid_proxy_protocol

pub record ProxyProtocolV2Builder : Type 0 where
  pub src : Option SocketAddr
  pub dst : Option SocketAddr

unfoldable pub new : ProxyProtocolV2Builder
new = record { src = none; dst = none }

unfoldable pub with_addrs :
    SocketAddr → SocketAddr → ProxyProtocolV2Builder → ProxyProtocolV2Builder
with_addrs src dst b = record { src = some src; dst = some dst }

-- The command byte, and all that follows it.
abbrev pair_fields : ℕ → ℕ → SocketAddr → SocketAddr → List ℕ
pair_fields family addr_len src dst =
    0x21
    ∷ family
    ∷ (to_be_bytes 2 addr_len
        ++ (octets src.ip ++ (octets dst.ip ++ (to_be_bytes 2 src.port ++ to_be_bytes 2 dst.port))))

abbrev local_fields : List ℕ
local_fields = 0x20 ∷ 0x00 ∷ to_be_bytes 2 0

-- `match (self.src, self.dst)`, with the families of the two addresses apart.
abbrev fields_of : IpAddr → IpAddr → SocketAddr → SocketAddr → List ℕ
fields_of (v4 a) (v4 b) src dst = pair_fields 0x11 12 src dst
fields_of (v6 a) (v6 b) src dst = pair_fields 0x21 36 src dst
fields_of _ _ src dst = local_fields

abbrev fields : Option SocketAddr → Option SocketAddr → List ℕ
fields (some src) (some dst) = fields_of src.ip dst.ip src dst
fields _ _ = local_fields

unfoldable pub build : ProxyProtocolV2Builder → List ℕ
build b = proxy_v2_signature ++ fields b.src b.dst
