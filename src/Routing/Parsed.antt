-- ===== src/Routing/Parsed.antt =====
-- The addresses that are read from text are addresses of the machine.
use proxy_switcher.Address.{Ipv4Addr, IsIpv4, IpAddr, IsIpAddr, v4, v6}
use proxy_switcher.Common.{ℕ, ◌<◌, ◌^◌, ◌≡◌, Option, some, List, [], ◌∷◌, arith}
use proxy_switcher.Common.Text.{Text, split, read_digits-le}
use proxy_switcher.Routing.Cidr.{parse_octet, parse_ipv4, four_parts, parse_ip_addr}

parse_octet-lt : (t : Text) (n : ℕ) → parse_octet t ≡ some n → n < 256
unfolding parse_octet
parse_octet-lt t n e = ground (arith, read_digits-le 255 0 t n)

four_parts-IsIpv4 : (ps : List Text) (ip : Ipv4Addr) → four_parts ps ≡ some ip → IsIpv4 ip
four_parts-IsIpv4 [] ip e = cc
four_parts-IsIpv4 (a ∷ []) ip e = cc
four_parts-IsIpv4 (a ∷ b ∷ []) ip e = cc
four_parts-IsIpv4 (a ∷ b ∷ c ∷ []) ip e = cc
four_parts-IsIpv4 (a ∷ b ∷ c ∷ d ∷ []) ip e = ground (
  arith,
  parse_octet-lt a ip.a,
  parse_octet-lt b ip.b,
  parse_octet-lt c ip.c,
  parse_octet-lt d ip.d,
)
four_parts-IsIpv4 (a ∷ b ∷ c ∷ d ∷ x ∷ ps) ip e = cc

parse_ipv4-IsIpv4 : (t : Text) (ip : Ipv4Addr) → parse_ipv4 t ≡ some ip → IsIpv4 ip
unfolding parse_ipv4
parse_ipv4-IsIpv4 t ip e = four_parts-IsIpv4 (split b'.' t) ip e

module _ (parse_ipv6 : Text → Option ℕ)
    (ipv6_bits : (t : Text) (n : ℕ) → parse_ipv6 t ≡ some n → n < 2 ^ 128) where
  pub parse_ip_addr-IsIpAddr :
      (t : Text) (ip : IpAddr) → parse_ip_addr parse_ipv6 t ≡ some ip → IsIpAddr ip
  unfolding parse_ip_addr
  parse_ip_addr-IsIpAddr t (v4 a) e = ground (arith, parse_ipv4-IsIpv4 t a)
  parse_ip_addr-IsIpAddr t (v6 n) e = ground (arith, ipv6_bits t n)
