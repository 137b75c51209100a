-- ===== src/Credentials/Policy.antt =====
-- `ProxyPolicy` of crates/proxy-core/src/credentials.rs.
use proxy_switcher.Common.{
  ℕ, Bool, true, false, not, ◌&&◌, Option, none, some, List, [], if◌then◌else◌, any, is_empty,
}
use proxy_switcher.Common.Text.{Text, equal, lowercase}
use proxy_switcher.Pool.Types.{
  Floats, ProxyInfo, ProxyProtocol, http, https, socks4, socks5, trojan, shadowsocks,
}

pub data Rotation : Type 0 where
  by_time per_request sticky : Rotation

pub record ProxyPolicy (F : Type 0) : Type 0 where
  pub rotation : Rotation
  pub sticky_secs : ℕ
  pub rotate_interval_secs : ℕ
  pub countries : List Text
  pub protocols : List ProxyProtocol
  pub min_score : F

-- `==` on protocols
unfoldable pub protocol_eq : ProxyProtocol → ProxyProtocol → Bool
protocol_eq http http = true
protocol_eq https https = true
protocol_eq socks4 socks4 = true
protocol_eq socks5 socks5 = true
protocol_eq trojan trojan = true
protocol_eq shadowsocks shadowsocks = true
protocol_eq _ _ = false

-- `eq_ignore_ascii_case`
unfoldable pub eq_ignore_case : Text → Text → Bool
unfolding equal lowercase
eq_ignore_case s t = equal (lowercase s) (lowercase t)

-- `.unwrap_or_default()`
abbrev pub or_empty : Option Text → Text
or_empty none = []
or_empty (some t) = t

module _ (fl : Floats) where
  open fl use {F, of_u64, lt}

  -- `ProxyPolicy::default`; the default rotation is by time.
  abbrev pub default_policy : ProxyPolicy F
  default_policy = record {
    rotation = by_time;
    sticky_secs = 600;
    rotate_interval_secs = 300;
    countries = [];
    protocols = [];
    min_score = of_u64 0;
  }

  -- `ProxyPolicy::allows`
  unfoldable pub allows : ProxyPolicy F → ProxyInfo F → Bool
  allows policy p =
      if not (is_empty policy.countries)
        && not (any (λ allowed. eq_ignore_case allowed (or_empty p.country)) policy.countries)
      then false
      else if not (is_empty policy.protocols)
          && not (any (λ q. protocol_eq q p.protocol) policy.protocols)
      then false
      else if lt p.score policy.min_score
      then false
      else true
