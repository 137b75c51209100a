-- ===== src/Tests/Destinations.antt =====
-- The statistics of a pool of two, and the routes of a policy that names a host.
use proxy_switcher.Address.{IpAddr, v4}
use proxy_switcher.Common.{ℕ, ◌≡◌, inl, refl, true, Option, none, some, List, [], ◌∷◌}
use proxy_switcher.Common.Text.{Text, codes, contains}
use proxy_switcher.Daemon.Covers.{name_is_routed}
use proxy_switcher.Daemon.Routes.{resolve_policy, host_route, routes_for, host_named}
use proxy_switcher.Pool.Statistics.{statistics}
use proxy_switcher.Pool.Sums.{AddsUp, statistics-AddsUp}
use proxy_switcher.Routing.Local.{is_local}
use proxy_switcher.Routing.Policy.{RoutePolicy, allow_list}
use proxy_switcher.Tests.Values.{whole, two, server}

abbrev show_nothing : IpAddr → Text
show_nothing ip = []

statistics-AddsUp_example :
    AddsUp whole show_nothing 1 300 two (statistics whole show_nothing 1 300 two)
statistics-AddsUp_example = statistics-AddsUp whole show_nothing 1 300 two

abbrev no_ipv6 : Text → Option ℕ
no_ipv6 t = none

abbrev shown : ℕ → Text
shown n = []

abbrev same_case : Text → Text
same_case t = t

abbrev one_server : Text → Option (List IpAddr)
one_server host = some (v4 server ∷ [])

abbrev named : RoutePolicy
named = record {
  mode = allow_list;
  cidrs = [];
  domains = codes ".example.com" ∷ [];
  ports = [];
  always_direct = [];
}

name_is_routed_example :
    contains
      (routes_for no_ipv6 shown named (resolve_policy no_ipv6 same_case one_server named))
      (host_route no_ipv6 shown (v4 server))
    ≡ true
unfolding host_named is_local
name_is_routed_example =
    name_is_routed no_ipv6 shown same_case one_server named (codes ".example.com") (v4 server)
      (inl refl) (v4 server ∷ [], refl, refl, inl refl, refl)
