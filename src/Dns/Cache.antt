-- ===== src/Dns/Cache.antt =====
-- `DnsCache` of crates/proxy-core/src/dns/mod.rs: the map is a list of its entries, the last written
-- first.
use proxy_switcher.Address.{Ipv4Addr, to_u32, IsIpv4, ipv4_eq}
use proxy_switcher.Common.{
  ℕ, ◌/◌, ◌%◌, ◌^◌, ◌≡◌, sym, Option, none, some, List, [], ◌∷◌, map, arith, if◌then◌else◌, ◌==◌,
}
use proxy_switcher.Common.Text.{Text}
use proxy_switcher.Routing.Cidr.{parse_ipv4}

abbrev pub Cache : Type 0
Cache = List (ℕ × Text)

unfoldable pub get_key : Cache → ℕ → Option Text
get_key [] k = none
get_key ((key, host) ∷ c) k = if key == k then some host else get_key c k

-- `HashMap::remove`
unfoldable pub remove_key : Cache → ℕ → Cache
remove_key [] k = []
remove_key ((key, host) ∷ c) k = if key == k then remove_key c k else (key, host) ∷ remove_key c k

-- `insert`
unfoldable pub insert : Cache → Ipv4Addr → Text → Cache
unfolding remove_key
insert c ip host = (to_u32 ip, host) ∷ remove_key c (to_u32 ip)

-- `insert_str`: a text that is no address changes nothing.
unfoldable pub insert_str : Cache → Text → Text → Cache
unfolding insert parse_ipv4
insert_str c ip host = elim (parse_ipv4 ip) [ none ↦ c | some address ↦ insert c address host ]

-- `lookup`
unfoldable pub lookup : Cache → Ipv4Addr → Option Text
unfolding get_key
lookup c ip = get_key c (to_u32 ip)

-- `remove`
unfoldable pub remove : Cache → Ipv4Addr → Cache
unfolding remove_key
remove c ip = remove_key c (to_u32 ip)

-- `Ipv4Addr::from(u32)`
unfoldable pub from_u32 : ℕ → Ipv4Addr
from_u32 n = record { a = n / 2 ^ 24 % 256; b = n / 2 ^ 16 % 256; c = n / 2 ^ 8 % 256; d = n % 256 }

-- `entries`
unfoldable pub entries : Cache → List (Ipv4Addr × Text)
unfolding from_u32
entries = map (λ (e : ℕ × Text). (from_u32 e.0, e.1))

get-remove_key :
    (c : Cache) (k j : ℕ) → get_key (remove_key c k) j ≡ (if k == j then none else get_key c j)
unfolding get_key remove_key
get-remove_key [] k j = ground arith
get-remove_key ((key, host) ∷ c) k j = ground (arith, get-remove_key c k j)

pub to_u32-injective : (x y : Ipv4Addr) → IsIpv4 x → IsIpv4 y → (to_u32 x == to_u32 y) ≡ ipv4_eq x y
to_u32-injective x y v w = ground arith

-- What a lookup finds behind an insertion and behind a removal: the address that was written or
-- removed, and no other, answers differently than before.
pub lookup_after :
    (c : Cache) (ip : Ipv4Addr) (host : Text) (other : Ipv4Addr)
    → IsIpv4 ip
    → IsIpv4 other
    → (lookup (insert c ip host) other ≡ (if ipv4_eq ip other then some host else lookup c other))
      × (lookup (remove c ip) other ≡ (if ipv4_eq ip other then none else lookup c other))
unfolding lookup insert remove get_key
lookup_after c ip host other v w =
    let gone = get-remove_key c (to_u32 ip) (to_u32 other) in
    let same = to_u32-injective ip other v w in
    (rw (sym same) (ground (arith, gone)), rw (sym same) gone)
