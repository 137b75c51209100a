-- ===== src/Tests/Routes.antt =====
-- Routing: the theorems at concrete rules and destinations.
use proxy_switcher.Address.{v4, IsIpv4}
use proxy_switcher.Common.{
  ℕ, ◌<◌, ◌^◌, ◌≡◌, ◌↔◌, inl, inr, refl, arith, true, false, Option, some, none, [], ◌∷◌,
  if◌then◌else◌, Bool-cases,
}
use proxy_switcher.Common.Text.{Text, codes, trim, equal}
use proxy_switcher.Routing.Cidr.{network_matches}
use proxy_switcher.Routing.Decides.{decide_iff, Addressed, ByMode}
use proxy_switcher.Routing.Domain.{matches_domain, normal_host}
use proxy_switcher.Routing.Local.{is_local}
use proxy_switcher.Routing.Policy.{RoutePolicy, deny_list, proxy, decide}
use proxy_switcher.Routing.Prefix.{InRange, network_matches_iff}
use proxy_switcher.Routing.Subdomain.{CoversHost, matches_domain_iff}
use proxy_switcher.Tests.Values.{address, server, proxied}

some_is : {a b : ℕ} → some a ≡ some b → a ≡ b
some_is e = cc

-- A reader of IPv6 addresses that knows the two unspecific ones.
abbrev pub two_names : Text → Option ℕ
two_names t =
    if equal t (codes "::") then some 0 else if equal t (codes "::1") then some 1 else none

two_names_bits : (t : Text) (n : ℕ) → two_names t ≡ some n → n < 2 ^ 128
two_names_bits t n e = elim (Bool-cases (equal t (codes "::"))) [
  | inl f ↦ let g = some_is (rw f at e) in omega (arith, g)
  | inr f ↦ (elim (Bool-cases (equal t (codes "::1"))) [
    | inl g ↦ let h = some_is (rw (f, g) at e) in omega (arith, h)
    | inr g ↦ absurd (cc (rw (f, g) at e))
  ])
]

abbrev machine : IsIpv4 server
machine = record {
  a_byte = omega arith;
  b_byte = omega arith;
  c_byte = omega arith;
  d_byte = omega arith;
}

network_matches_iff_example :
    (network_matches (v4 (address 93 184 216 0)) 24 (v4 server) ≡ true)
    ↔ InRange (v4 (address 93 184 216 0)) 24 (v4 server)
network_matches_iff_example =
    network_matches_iff (v4 (address 93 184 216 0)) 24 (v4 server)
      (record {
        a_byte = omega arith;
        b_byte = omega arith;
        c_byte = omega arith;
        d_byte = omega arith;
      })
      (record {
        a_byte = omega arith;
        b_byte = omega arith;
        c_byte = omega arith;
        d_byte = omega arith;
      })

matches_domain_iff_example :
    (matches_domain (codes " Example.com") (codes "www.example.com.") ≡ true)
    ↔ CoversHost (trim (codes " Example.com")) (normal_host (codes "www.example.com."))
matches_domain_iff_example = matches_domain_iff (codes " Example.com") (codes "www.example.com.")

decide_iff_example :
    (decide two_names proxied (v4 server) 443 none ≡ proxy)
    ↔ (is_local (v4 server) ≡ false)
      × ¬ Addressed two_names two_names_bits (v4 server) machine proxied 443 none []
      × ByMode two_names two_names_bits (v4 server) machine proxied 443 none proxied.mode
decide_iff_example = decide_iff two_names two_names_bits (v4 server) machine proxied 443 none

-- Everything but one network is proxied, at the port 443.
abbrev narrowed : RoutePolicy
narrowed = record {
  mode = deny_list;
  cidrs = [];
  domains = [];
  ports = 443 ∷ [];
  always_direct = codes "93.184.216.0/24" ∷ [];
}

server_is_outward : is_local (v4 server) ≡ false
unfolding is_local
server_is_outward = refl
