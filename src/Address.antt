-- ===== src/Address.antt =====
-- `std::net::IpAddr`: an IPv4 address as its four octets, an IPv6 address as its 128 bits.
use proxy_switcher.Common.{
  ℕ, ◌+◌, ◌*◌, ◌^◌, ◌<◌, ◌≡◌, ◌↔◌, Bool, true, false, ◌&&◌, List, [], ◌∷◌, arith, ◌==◌,
}

pub record Ipv4Addr : Type 0 where
  pub a : ℕ
  pub b : ℕ
  pub c : ℕ
  pub d : ℕ

abbrev pub octets : Ipv4Addr → List ℕ
octets ip = ip.a ∷ ip.b ∷ ip.c ∷ ip.d ∷ []

-- `u32::from`
abbrev pub to_u32 : Ipv4Addr → ℕ
to_u32 ip = ((ip.a * 256 + ip.b) * 256 + ip.c) * 256 + ip.d

-- The octets are bytes.
pub record IsIpv4 (ip : Ipv4Addr) : Type 0 where
  pub a_byte : ip.a < 256
  pub b_byte : ip.b < 256
  pub c_byte : ip.c < 256
  pub d_byte : ip.d < 256

abbrev pub ipv4_eq : Ipv4Addr → Ipv4Addr → Bool
ipv4_eq x y = x.a == y.a && x.b == y.b && x.c == y.c && x.d == y.d

pub ipv4_eq_iff : (x y : Ipv4Addr) → (ipv4_eq x y ≡ true) ↔ (x ≡ y)
ipv4_eq_iff x y = ground arith

pub data IpAddr : Type 0 where
  v4 : Ipv4Addr → IpAddr
  v6 : ℕ → IpAddr

abbrev pub ip_eq : IpAddr → IpAddr → Bool
ip_eq (v4 x) (v4 y) = ipv4_eq x y
ip_eq (v6 x) (v6 y) = x == y
ip_eq _ _ = false

pub ip_eq_iff : (x y : IpAddr) → (ip_eq x y ≡ true) ↔ (x ≡ y)
ip_eq_iff (v4 x) (v4 y) = ground arith
ip_eq_iff (v6 x) (v6 y) = ground arith
ip_eq_iff (v4 x) (v6 y) = ground arith
ip_eq_iff (v6 x) (v4 y) = ground arith

-- An address of the machine: octets below 256, or 128 bits.
abbrev pub IsIpAddr : IpAddr → Type 0
IsIpAddr (v4 ip) = IsIpv4 ip
IsIpAddr (v6 n) = n < 2 ^ 128
