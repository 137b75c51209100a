-- ===== src/Daemon/Covers.antt =====
-- The routes cover what the policy's names resolve to.
use proxy_switcher.Address.{IpAddr, ip_eq, ip_eq_iff}
use proxy_switcher.Common.{
  ℕ, ◌≡◌, inl, inr, refl, sym, Bool, true, false, ◌||◌, Option, none, some, List, [], ◌∷◌, ◌++◌,
  arith, if◌then◌else◌, any-append, is_empty, Bool-cases, subst,
}
use proxy_switcher.Common.Member.{In}
use proxy_switcher.Common.Text.{Text, contains, equal, equal_refl}
use proxy_switcher.Daemon.Routes.{
  PolicyRoutes, insert_destination, resolve_rules, insert_found, with_found, host_named,
  resolve_names, resolve_policy, host_route, rule_routes, add_routes, routes_for,
}
use proxy_switcher.Routing.Local.{is_local}
use proxy_switcher.Routing.Policy.{RoutePolicy}

-- Whether an address is among the destinations.
abbrev pub covers : IpAddr → PolicyRoutes → Bool
covers a [] = false
covers a ((b, n) ∷ rest) = ip_eq a b || covers a rest

ip_eq_refl : (a : IpAddr) → ip_eq a a ≡ true
ip_eq_refl a = (ip_eq_iff a a).1 refl

covers-insert_destination :
    (a b : IpAddr) (name : Option Text) (routes : PolicyRoutes)
    → covers a (insert_destination b name routes) ≡ (ip_eq a b || covers a routes)
unfolding insert_destination
covers-insert_destination a b name [] = refl
covers-insert_destination a b name ((c, n) ∷ rest) =
    ground
      (arith, covers-insert_destination a b name rest, ip_eq_iff b c, ip_eq_iff a b, ip_eq_iff a c)

module _ (parse_ipv6 : Text → Option ℕ) where
  covers_stays :
      (a : IpAddr) (host : Text) (found : List IpAddr) (routes : PolicyRoutes)
      → covers a routes ≡ true
      → covers a (insert_found parse_ipv6 host found routes) ≡ true
  unfolding insert_found
  covers_stays a host [] routes h = h
  covers_stays a host (b ∷ found) routes h =
      let kept : covers a (if is_local b then routes else insert_destination b (some host) routes)
          ≡ true =
        ground (arith, h, covers-insert_destination a b (some host) routes) in
      covers_stays a host found _ kept

  found_is_covered :
      (a : IpAddr) (host : Text) (found : List IpAddr) (routes : PolicyRoutes)
      → In a found
      → is_local a ≡ false
      → covers a (insert_found parse_ipv6 host found routes) ≡ true
  unfolding insert_found
  found_is_covered a host [] routes i out = elim i [ ]
  found_is_covered a host (b ∷ found) routes (inl e) out =
      let local : is_local b ≡ false = subst (λ x. is_local x ≡ false) e out in
      let inserted : covers a (insert_destination b (some host) routes) ≡ true =
        ground (arith, covers-insert_destination a b (some host) routes, ip_eq_iff a b, e) in
      let kept : covers a (if is_local b then routes else insert_destination b (some host) routes)
          ≡ true =
        rw local inserted in
      covers_stays a host found _ kept
  found_is_covered a host (b ∷ found) routes (inr i) out = found_is_covered a host found _ i out

  module _ (to_lowercase : Text → Text) (lookup_host : Text → Option (List IpAddr)) where
    lookup_stays :
        (a : IpAddr) (host : Text) (o : Option (List IpAddr)) (routes : PolicyRoutes)
        → covers a routes ≡ true
        → covers a (with_found parse_ipv6 host o routes) ≡ true
    lookup_stays a host none routes h = h
    lookup_stays a host (some found) routes h = covers_stays a host found routes h

    names_stay :
        (a : IpAddr) (names : List Text) (routes : PolicyRoutes)
        → covers a routes ≡ true
        → covers a (resolve_names parse_ipv6 to_lowercase lookup_host names routes) ≡ true
    unfolding resolve_names
    names_stay a [] routes h = h
    names_stay a (name ∷ names) routes h =
        let host = host_named parse_ipv6 to_lowercase lookup_host name in
        let more = with_found parse_ipv6 host (lookup_host host) routes in
        let kept : covers a (if is_empty host then routes else more) ≡ true =
          ground (arith, h, lookup_stays a host (lookup_host host) routes h) in
        names_stay a names _ kept

    -- A name of the policy, as it is looked up, and one of its addresses.
    abbrev pub ResolvesTo : Text → IpAddr → Type 0
    ResolvesTo name a =
        (found : List IpAddr) × (is_empty (host_named parse_ipv6 to_lowercase lookup_host name)
          ≡ false)
        × (lookup_host (host_named parse_ipv6 to_lowercase lookup_host name) ≡ some found)
        × In a found
        × (is_local a ≡ false)

    name_is_covered :
        (a : IpAddr) (name : Text) (names : List Text) (routes : PolicyRoutes)
        → In name names
        → ResolvesTo name a
        → covers a (resolve_names parse_ipv6 to_lowercase lookup_host names routes) ≡ true
    unfolding resolve_names
    name_is_covered a name [] routes i r = elim i [ ]
    name_is_covered a name (n ∷ names) routes (inl e) r =
        let (found, some_host, known, i, out) = subst (λ x. ResolvesTo x a) e r in
        let host = host_named parse_ipv6 to_lowercase lookup_host n in
        let kept : covers a (
              if is_empty host
              then routes
              else with_found parse_ipv6 host (lookup_host host) routes)
            ≡ true =
          rw (some_host, known) (found_is_covered a host found routes i out) in
        names_stay a names _ kept
    name_is_covered a name (n ∷ names) routes (inr i) r = name_is_covered a name names _ i r

  module _ (show_ipv6 : ℕ → Text) where
    route_stays :
        (k : Text) (rest : PolicyRoutes) (routes : List Text)
        → contains routes k ≡ true
        → contains (add_routes parse_ipv6 show_ipv6 rest routes) k ≡ true
    unfolding add_routes
    route_stays k [] routes h = h
    route_stays k ((b, n) ∷ rest) routes h =
        let route = host_route parse_ipv6 show_ipv6 b in
        let kept : contains (if contains routes route then routes else routes ++ route ∷ []) k
            ≡ true =
          ground (arith, h, any-append (equal k) routes (route ∷ [])) in
        route_stays k rest _ kept

    covered_is_routed :
        (a : IpAddr) (resolved : PolicyRoutes) (routes : List Text)
        → covers a resolved ≡ true
        → contains
            (add_routes parse_ipv6 show_ipv6 resolved routes)
            (host_route parse_ipv6 show_ipv6 a)
          ≡ true
    unfolding add_routes
    covered_is_routed a [] routes h = absurd (cc h)
    covered_is_routed a ((b, n) ∷ rest) routes h = elim (Bool-cases (ip_eq a b)) [
      | inl e ↦
          let same = (ip_eq_iff a b).0 e in
          let k = host_route parse_ipv6 show_ipv6 b in
          let kept : contains (if contains routes k then routes else routes ++ k ∷ []) k ≡ true =
            ground (arith, any-append (equal k) routes (k ∷ []), equal_refl k) in
          subst
            (λ x.
              contains
                (add_routes parse_ipv6 show_ipv6 rest
                  (if contains routes k then routes else routes ++ k ∷ []))
                (host_route parse_ipv6 show_ipv6 x)
              ≡ true)
            (sym same) (route_stays k rest _ kept)
      | inr e ↦ covered_is_routed a rest _ (rw e at h)
    ]

    -- Every address that a name of the policy resolves to, and that is not local, has a route of its
    -- own in the routing table, whatever else the policy names.
    pub name_is_routed :
        (to_lowercase : Text → Text) (lookup_host : Text → Option (List IpAddr))
        (policy : RoutePolicy) (name : Text) (a : IpAddr)
        → In name policy.domains
        → ResolvesTo to_lowercase lookup_host name a
        → contains
            (routes_for parse_ipv6 show_ipv6 policy
              (resolve_policy parse_ipv6 to_lowercase lookup_host policy))
            (host_route parse_ipv6 show_ipv6 a)
          ≡ true
    unfolding routes_for resolve_policy
    name_is_routed to_lowercase lookup_host policy name a i r =
        covered_is_routed a (resolve_policy parse_ipv6 to_lowercase lookup_host policy)
          (rule_routes parse_ipv6 show_ipv6 policy.cidrs)
          (name_is_covered to_lowercase lookup_host a name policy.domains
            (resolve_rules parse_ipv6 policy.cidrs []) i r)
