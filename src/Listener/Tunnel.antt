-- ===== src/Listener/Tunnel.antt =====
-- `open_tunnel` of crates/proxy-core/src/local_proxy.rs: a proxy that fails is left for the next.
use proxy_switcher.Address.{IpAddr}
use proxy_switcher.Common.{
  ℕ, zero, suc, ◌+◌, ◌%◌, ◌^◌, Bool, true, false, ◌&&◌, ◌||◌, Option, none, some, List, [], ◌∷◌,
  if◌then◌else◌, ltb,
}
use proxy_switcher.Common.Text.{Text}
use proxy_switcher.Connectors.Base.{Target, is_plain_http}
use proxy_switcher.Listener.Sessions.{recently_used}
use proxy_switcher.Listener.State.{LocalProxy, Moment, host_key, record_failure}
use proxy_switcher.Pool.Select.{best_avoiding}
use proxy_switcher.Pool.State.{insert_key}
use proxy_switcher.Pool.Types.{Floats, ProxyInfo}

module _ (fl : Floats) where
  open fl use {F}

  -- What the search for a proxy meets when so many further attempts are left: the clocks, whether
  -- there is time, whether the forwarder opens a tunnel through a proxy to a target, whether a plain
  -- connection to a proxy opens, and what other tasks do.
  pub record Network : Type 0 where
    pub moment : ℕ → Moment F
    pub has_time : ℕ → Bool
    pub tunnels : ℕ → ProxyInfo F → Target → Bool
    pub forwards : ℕ → ProxyInfo F → Bool
    pub others : ℕ → LocalProxy F → LocalProxy F

  -- The state behind the search, the proxies that it tried, and the one that carried.
  pub record Search : Type 0 where
    pub listener : LocalProxy F
    pub tried : List (ProxyInfo F)
    pub carried : Option (ProxyInfo F)

  abbrev pub gives_up : List (ProxyInfo F) → LocalProxy F → Search
  gives_up tried l = record { listener = l; tried = tried; carried = none }

  abbrev pub behind : ProxyInfo F → Search → Search
  behind p s = record s { tried = p ∷ s.tried }

  -- A tunnel, or to port 80 a connection for plain forwarding.
  abbrev pub carries : Network → Target → ℕ → ProxyInfo F → Bool
  carries net t left p = net.tunnels left p t || is_plain_http t.port && net.forwards left p

  abbrev pub with_failed : ProxyInfo F → List Text → List Text
  with_failed p avoided = insert_key (host_key p.host) (insert_key p.id avoided)

  abbrev pub count_failure : LocalProxy F → LocalProxy F
  count_failure l = record l { failures = (l.failures + 1) % 2 ^ 64 }

  abbrev pub count_rotation : LocalProxy F → LocalProxy F
  count_rotation l = record l { rotations = (l.rotations + 1) % 2 ^ 64 }

  -- The loop, with the attempts that are left.
  unfoldable pub search_tunnel :
      Network → Target → List IpAddr → ℕ → ProxyInfo F → List Text → LocalProxy F → Search
  unfolding record_failure best_avoiding
  search_tunnel net t avoid_exits zero current avoided l = gives_up [] l
  search_tunnel net t avoid_exits (suc left) current avoided l = elim (net.has_time left) [
    | false ↦ gives_up [] l
    | true ↦ elim (carries net t left current) [
      | true ↦ record { listener = net.others left l; tried = current ∷ []; carried = some current }
      | false ↦
          let m = net.moment left in
          let failed = record_failure fl m current (count_failure (net.others left l)) in
          let avoid = with_failed current avoided in
          elim (best_avoiding fl failed.pool m.min_score m.now avoid avoid_exits) [
            | none ↦ gives_up (current ∷ []) failed
            | some next ↦
                behind current
                  (search_tunnel net t avoid_exits left next avoid (count_rotation failed))
          ]
    ]
  ]

  -- `open_tunnel`
  unfoldable pub open_tunnel : Network → ℕ → Target → ProxyInfo F → LocalProxy F → Search
  unfolding search_tunnel recently_used
  open_tunnel net max_attempts t p l =
      search_tunnel net t (recently_used l).1 (if ltb max_attempts 1 then 1 else max_attempts) p []
        l
