-- ===== src/Daemon/Routes.antt =====
-- `resolve_policy` and `routes_for` of crates/proxy-daemon/src/policy.rs. The system's resolver, the
-- lower case of Unicode, and how the standard library reads and writes an IPv6 address are parameters.
-- The map of the destinations is a list of entries; the order of its keys is not modelled.
use proxy_switcher.Address.{IpAddr, v4, v6, ip_eq}
use proxy_switcher.Common.{
  ℕ, Option, none, some, List, [], ◌∷◌, ◌++◌, if◌then◌else◌, any, is_empty, ◌==◌,
}
use proxy_switcher.Common.Text.{Text, codes, trim, trim_start_by, contains}
use proxy_switcher.Router.State.{show_ipv4}
use proxy_switcher.Routing.Cidr.{parse_ip_addr}
use proxy_switcher.Routing.Local.{is_local}
use proxy_switcher.Routing.Policy.{RoutePolicy}

-- `PolicyRoutes`: the addresses, with the name behind each where there is one.
abbrev pub PolicyRoutes : Type 0
PolicyRoutes = List (IpAddr × Option Text)

-- `destinations.insert(address, name)`
unfoldable pub insert_destination : IpAddr → Option Text → PolicyRoutes → PolicyRoutes
insert_destination address name [] = (address, name) ∷ []
insert_destination address name ((a, n) ∷ rest) =
    let later = insert_destination address name rest in
    if ip_eq address a then (a, name) ∷ rest else (a, n) ∷ later

module _ (parse_ipv6 : Text → Option ℕ) where
  -- `parse_destination`
  unfoldable pub parse_destination : Text → Option IpAddr
  unfolding trim parse_ip_addr
  parse_destination rule = parse_ip_addr parse_ipv6 (trim rule)

  abbrev pub with_address : Option IpAddr → PolicyRoutes → PolicyRoutes
  with_address none routes = routes
  with_address (some address) routes = insert_destination address none routes

  -- The addresses that the policy names.
  unfoldable pub resolve_rules : List Text → PolicyRoutes → PolicyRoutes
  unfolding parse_destination insert_destination
  resolve_rules [] routes = routes
  resolve_rules (rule ∷ rules) routes =
      resolve_rules rules (with_address (parse_destination rule) routes)

  -- The addresses behind a name, without the local ones.
  unfoldable pub insert_found : Text → List IpAddr → PolicyRoutes → PolicyRoutes
  unfolding insert_destination is_local
  insert_found host [] routes = routes
  insert_found host (address ∷ addresses) routes =
      insert_found host addresses
        (if is_local address then routes else insert_destination address (some host) routes)

  abbrev pub with_found : Text → Option (List IpAddr) → PolicyRoutes → PolicyRoutes
  with_found host none routes = routes
  with_found host (some addresses) routes = insert_found host addresses routes

  module _ (to_lowercase : Text → Text) (lookup_host : Text → Option (List IpAddr)) where
    unfoldable pub host_named : Text → Text
    unfolding trim trim_start_by
    host_named name = to_lowercase (trim_start_by (λ c. c == b'.') (trim name))

    unfoldable pub resolve_names : List Text → PolicyRoutes → PolicyRoutes
    unfolding host_named insert_found
    resolve_names [] routes = routes
    resolve_names (name ∷ names) routes =
        let host = host_named name in
        resolve_names names
          (if is_empty host then routes else with_found host (lookup_host host) routes)

    -- `resolve_policy`
    unfoldable pub resolve_policy : RoutePolicy → PolicyRoutes
    unfolding resolve_rules resolve_names
    resolve_policy policy = resolve_names policy.domains (resolve_rules policy.cidrs [])

  module _ (show_ipv6 : ℕ → Text) where
    -- The route to one address.
    abbrev pub host_route : IpAddr → Text
    host_route (v4 ip) = show_ipv4 ip ++ codes "/32"
    host_route (v6 n) = show_ipv6 n ++ codes "/128"

    abbrev pub route_of_address : Option IpAddr → List Text → List Text
    route_of_address none routes = routes
    route_of_address (some address) routes = host_route address ∷ routes

    unfoldable pub rule_routes : List Text → List Text
    unfolding trim parse_ip_addr show_ipv4
    rule_routes [] = []
    rule_routes (rule ∷ rules) =
        let rule = trim rule in
        let later = rule_routes rules in
        if is_empty rule
        then later
        else if any (λ c. c == b'/') rule
        then rule ∷ later
        else route_of_address (parse_ip_addr parse_ipv6 rule) later

    unfoldable pub add_routes : PolicyRoutes → List Text → List Text
    unfolding show_ipv4
    add_routes [] routes = routes
    add_routes ((address, name) ∷ rest) routes =
        let route = host_route address in
        add_routes rest (if contains routes route then routes else routes ++ route ∷ [])

    -- `routes_for`
    unfoldable pub routes_for : RoutePolicy → PolicyRoutes → List Text
    unfolding rule_routes add_routes
    routes_for policy resolved = add_routes resolved (rule_routes policy.cidrs)
