-- ===== src/Pool/Types.antt =====
-- The records of crates/proxy-core/src/proxy/mod.rs and crates/proxy-core/src/health/mod.rs that
-- the pool is made of. A score is a double: its type and operations are an interface.
use Prim.Native.Nat.{Ordering}
use proxy_switcher.Address.{IpAddr}
use proxy_switcher.Common.{ℕ, Bool, true, false, Option, none, some, if◌then◌else◌, ◌||◌}
use proxy_switcher.Common.Text.{Text, codes, equal, lowercase}

-- f64: `ge` is `>=`, `lt` is `<`, and `partial_cmp` is none at a NaN.
pub record Floats : Type 1 where
  pub F : Type 0
  pub of_u64 : ℕ → F
  pub half : F
  pub div : F → F → F
  pub mul : F → F → F
  pub fmin : F → F → F
  pub powf : F → F → F
  pub ge : F → F → Bool
  pub lt : F → F → Bool
  pub partial_cmp : F → F → Option Ordering

pub data ProxyProtocol : Type 0 where
  http https socks4 socks5 trojan shadowsocks : ProxyProtocol

pub data Anonymity : Type 0 where
  transparent anonymous elite unknown : Anonymity

-- `ProxyProtocol::scheme`
unfoldable pub scheme : ProxyProtocol → Text
scheme http = codes "http"
scheme https = codes "https"
scheme socks4 = codes "socks4"
scheme socks5 = codes "socks5"
scheme trojan = codes "trojan"
scheme shadowsocks = codes "ss"

-- `ProxyProtocol::from_str`; `none` is the error of an unknown name.
unfoldable pub protocol_of_name : Text → Option ProxyProtocol
unfolding equal
protocol_of_name s =
    if equal s (codes "http")
    then some http
    else if equal s (codes "https")
    then some https
    else if equal s (codes "socks4")
    then some socks4
    else if equal s (codes "socks5")
    then some socks5
    else if equal s (codes "trojan")
    then some trojan
    else if equal s (codes "shadowsocks") || equal s (codes "ss")
    then some shadowsocks
    else none

unfoldable pub protocol_from_str : Text → Option ProxyProtocol
unfolding lowercase protocol_of_name
protocol_from_str s = protocol_of_name (lowercase s)

-- `ProxyInfo`. The times are readings of the clock.
pub record ProxyInfo (F : Type 0) : Type 0 where
  pub id : Text
  pub host : Text
  pub port : ℕ
  pub protocol : ProxyProtocol
  pub anonymity : Anonymity
  pub latency_ms : Option ℕ
  pub country : Option Text
  pub country_reported : Option Text
  pub last_checked : Option ℕ
  pub last_success : Option ℕ
  pub first_seen : ℕ
  pub next_probe_at : ℕ
  pub cipher : Option Text
  pub password : Option Text
  pub supports_tunnel : Bool
  pub exit_ip : Option IpAddr
  pub consecutive_failures : ℕ
  pub score : F

pub data Verdict : Type 0 where
  working failed inconclusive : Verdict

pub record HealthResult : Type 0 where
  pub proxy_id : Text
  pub verdict : Verdict
  pub latency_ms : ℕ
  pub error : Option Text
  pub tunneled : Bool
  pub anonymity : Option Anonymity
  pub exit_ip : Option IpAddr

abbrev pub is_some : {A : Type 0} → Option A → Bool
is_some none = false
is_some (some a) = true
