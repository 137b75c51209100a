-- ===== src/Routing/Policy.antt =====
-- `RoutePolicy` of crates/proxy-core/src/routing.rs.
use proxy_switcher.Address.{IpAddr}
use proxy_switcher.Common.{
  ℕ, Bool, true, false, not, ◌&&◌, ◌||◌, Option, none, some, List, [], ◌==◌, if◌then◌else◌, any,
  is_empty,
}
use proxy_switcher.Common.Text.{Text}
use proxy_switcher.Routing.Cidr.{matches_cidr}
use proxy_switcher.Routing.Domain.{matches_domain}
use proxy_switcher.Routing.Local.{is_local}

pub data RouteMode : Type 0 where
  no_routes allow_list deny_list : RouteMode

pub data Decision : Type 0 where
  proxy direct : Decision

pub record RoutePolicy : Type 0 where
  pub mode : RouteMode
  pub cidrs : List Text
  pub domains : List Text
  pub ports : List ℕ
  pub always_direct : List Text

-- `RoutePolicy::default`
abbrev pub default_policy : RoutePolicy
default_policy = record {
  mode = no_routes;
  cidrs = [];
  domains = [];
  ports = [];
  always_direct = [];
}

abbrev pub mode_is_enabled : RouteMode → Bool
mode_is_enabled no_routes = false
mode_is_enabled _ = true

unfoldable pub is_enabled : RoutePolicy → Bool
is_enabled p = mode_is_enabled p.mode

-- `self.ports.contains(&port)`
abbrev pub has_port : List ℕ → ℕ → Bool
has_port ports port = any (λ p. p == port) ports

-- The match on the mode, where neither exemption applies.
abbrev pub by_mode : RouteMode → Bool → Decision
by_mode no_routes matched = direct
by_mode allow_list matched = if matched then proxy else direct
by_mode deny_list matched = if matched then direct else proxy

abbrev pub any_domain : List Text → Option Text → Bool
any_domain domains none = false
any_domain domains (some hostname) = any (λ rule. matches_domain rule hostname) domains

unfoldable pub policy_matches_domain : RoutePolicy → Option Text → Bool
policy_matches_domain p hostname = any_domain p.domains hostname

module _ (parse_ipv6 : Text → Option ℕ) where
  unfoldable pub matches_any : RoutePolicy → IpAddr → ℕ → List Text → Bool
  matches_any p ip port rules =
      if not (is_empty p.ports) && not (has_port p.ports port)
      then false
      else any (λ rule. matches_cidr parse_ipv6 rule ip) rules

  unfoldable pub matches_always_direct : RoutePolicy → IpAddr → ℕ → Bool
  unfolding matches_any
  matches_always_direct p ip port = matches_any p ip port p.always_direct

  unfoldable pub decide : RoutePolicy → IpAddr → ℕ → Option Text → Decision
  unfolding matches_any policy_matches_domain
  decide p ip port hostname =
      if is_local ip
      then direct
      else if matches_any p ip port p.always_direct
      then direct
      else by_mode p.mode (matches_any p ip port p.cidrs || policy_matches_domain p hostname)
