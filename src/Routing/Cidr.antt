-- ===== src/Routing/Cidr.antt =====
-- `matches_cidr` of crates/proxy-core/src/routing.rs. How the standard library reads an IPv6
-- address from text is a parameter; an IPv4 address is four decimal octets of at most three
-- digits with no leading zero.
use Prim.Native.Nat.{bit_and}
use mathlib.Core.Option
use proxy_switcher.Address.{Ipv4Addr, IpAddr, v4, v6, to_u32, ip_eq}
use proxy_switcher.Common.{
  ℕ, ◌-◌, ◌*◌, ◌%◌, ◌^◌, Bool, true, false, not, ◌&&◌, ◌||◌, Option, none, some, [], ◌∷◌, List, ltb,
  ◌==◌, if◌then◌else◌, length, is_empty,
}
use proxy_switcher.Common.Text.{Text, trim, split, split_once, read_digits, parse_uint}

abbrev leading_zero : Text → Bool
leading_zero [] = false
leading_zero (c ∷ s) = c == b'0' && not (is_empty s)

unfoldable pub parse_octet : Text → Option ℕ
unfolding read_digits
parse_octet t =
    if is_empty t || ltb 3 (length t) || leading_zero t then none else read_digits 255 0 t

abbrev four : Option ℕ → Option ℕ → Option ℕ → Option ℕ → Option Ipv4Addr
four (some a) (some b) (some c) (some d) = some (record { a = a; b = b; c = c; d = d })
four _ _ _ _ = none

abbrev pub four_parts : List Text → Option Ipv4Addr
four_parts (a ∷ b ∷ c ∷ d ∷ []) =
    four (parse_octet a) (parse_octet b) (parse_octet c) (parse_octet d)
four_parts _ = none

-- `parse::<Ipv4Addr>`
unfoldable pub parse_ipv4 : Text → Option Ipv4Addr
unfolding parse_octet split
parse_ipv4 t = four_parts (split b'.' t)

-- `(net & mask) == (addr & mask)` with `mask = MAX << (bits - prefix)`, behind the two tests of
-- the prefix.
unfoldable pub in_network : ℕ → ℕ → ℕ → ℕ → Bool
in_network bits net addr prefix =
    if prefix == 0
    then true
    else if ltb bits prefix
    then false
    else (let mask = (2 ^ bits - 1) * 2 ^ (bits - prefix) % 2 ^ bits in
        bit_and net mask == bit_and addr mask)

unfoldable pub network_matches : IpAddr → ℕ → IpAddr → Bool
unfolding in_network
network_matches (v4 net) prefix (v4 addr) = in_network 32 (to_u32 net) (to_u32 addr) prefix
network_matches (v6 net) prefix (v6 addr) = in_network 128 net addr prefix
network_matches _ prefix _ = false

abbrev pub range_matches : Option IpAddr → Option ℕ → IpAddr → Bool
range_matches (some net) (some prefix) ip = network_matches net prefix ip
range_matches _ _ ip = false

abbrev pub address_matches : Option IpAddr → IpAddr → Bool
address_matches (some r) ip = ip_eq r ip
address_matches none ip = false

module _ (parse_ipv6 : Text → Option ℕ) where
  -- `parse::<IpAddr>`
  unfoldable pub parse_ip_addr : Text → Option IpAddr
  unfolding parse_ipv4
  parse_ip_addr t = elim (parse_ipv4 t) [
    | some a ↦ some (v4 a)
    | none ↦ Option.map v6 (parse_ipv6 t)
  ]

  abbrev pub rule_matches : Text → Option (Text × Text) → IpAddr → Bool
  rule_matches rule (some (network, prefix)) ip =
      range_matches (parse_ip_addr network) (parse_uint 255 prefix) ip
  rule_matches rule none ip = address_matches (parse_ip_addr rule) ip

  unfoldable pub matches_cidr : Text → IpAddr → Bool
  unfolding trim split_once parse_ip_addr parse_uint network_matches
  matches_cidr rule ip =
      let rule = trim rule in
      if is_empty rule then false else rule_matches rule (split_once b'/' rule) ip
