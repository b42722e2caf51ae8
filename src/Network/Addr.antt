-- ===== src/Network/Addr.antt =====
-- `IpAddr` and `SocketAddr` of the standard library. An address is the number that its octets
-- spell, most significant first.
use v3mtp.Prelude.{ℕ, ◌<◌, ◌^◌, ◌≡◌, ◌↔◌, Bool, true, false, List, Eq, ◌==◌, arith, to_be_bytes}

pub data IpAddr : Type 0 where
  v4 : ℕ → IpAddr
  v6 : ℕ → IpAddr

pub record SocketAddr : Type 0 where
  pub ip : IpAddr
  pub port : ℕ

-- `octets`.
abbrev pub octets : IpAddr → List ℕ
octets (v4 a) = to_be_bytes 4 a
octets (v6 a) = to_be_bytes 16 a

abbrev pub IsIpAddr : IpAddr → Type 0
IsIpAddr (v4 a) = a < 2 ^ 32
IsIpAddr (v6 a) = a < 2 ^ 128

abbrev pub IsSocketAddr : SocketAddr → Type 0
IsSocketAddr a = IsIpAddr a.ip × (a.port < 2 ^ 16)

abbrev pub same_ip : IpAddr → IpAddr → Bool
same_ip (v4 a) (v4 b) = a == b
same_ip (v6 a) (v6 b) = a == b
same_ip _ _ = false

pub same_ip_iff : (a b : IpAddr) → (same_ip a b ≡ true) ↔ (a ≡ b)
same_ip_iff (v4 a) (v4 b) = ground arith
same_ip_iff (v6 a) (v6 b) = ground arith
same_ip_iff (v4 a) (v6 b) = ground arith
same_ip_iff (v6 a) (v4 b) = ground arith

instance abbrev pub ip_eq : Eq IpAddr
ip_eq = record { beq = same_ip; beq_iff = same_ip_iff }
