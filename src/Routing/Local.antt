-- ===== src/Routing/Local.antt =====
-- `is_local` of crates/proxy-core/src/routing.rs, with the address tests of `std::net` that it uses.
use Prim.Native.Nat.{bit_and}
use proxy_switcher.Address.{Ipv4Addr, IpAddr, v4, v6}
use proxy_switcher.Common.{ℕ, ◌/◌, ◌^◌, Bool, ◌&&◌, ◌||◌, leb, ltb, ◌==◌}

abbrev pub is_loopback : Ipv4Addr → Bool
is_loopback ip = ip.a == 127

abbrev pub is_private : Ipv4Addr → Bool
is_private ip =
    ip.a == 10 || ip.a == 172 && leb 16 ip.b && leb ip.b 31 || ip.a == 192 && ip.b == 168

abbrev pub is_link_local : Ipv4Addr → Bool
is_link_local ip = ip.a == 169 && ip.b == 254

abbrev pub is_unspecified : Ipv4Addr → Bool
is_unspecified ip = ip.a == 0 && ip.b == 0 && ip.c == 0 && ip.d == 0

abbrev pub is_multicast : Ipv4Addr → Bool
is_multicast ip = leb 224 ip.a && leb ip.a 239

abbrev pub is_broadcast : Ipv4Addr → Bool
is_broadcast ip = ip.a == 255 && ip.b == 255 && ip.c == 255 && ip.d == 255

-- `v6.segments()[0]`
abbrev pub first_segment : ℕ → ℕ
first_segment n = n / 2 ^ 112

unfoldable pub is_local : IpAddr → Bool
is_local (v4 ip) =
    is_loopback ip
    || is_private ip
    || is_link_local ip
    || is_unspecified ip
    || is_multicast ip
    || is_broadcast ip
    || ip.a == 100 && leb 64 ip.b && ltb ip.b 128
is_local (v6 n) =
    n == 1
    || n == 0
    || bit_and (first_segment n) 0xff00 == 0xff00
    || bit_and (first_segment n) 0xfe00 == 0xfc00
    || bit_and (first_segment n) 0xffc0 == 0xfe80
