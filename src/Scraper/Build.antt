-- ===== src/Scraper/Build.antt =====
-- The two `build` functions and `parse_protocol` of crates/proxy-core/src/scraper. The readings of the
-- clock within one call are one reading here.
use proxy_switcher.Common.{
  ℕ, Bool, true, not, ◌&&◌, ◌||◌, Option, none, some, List, [], ◌∷◌, ◌++◌, if◌then◌else◌, leb, ltb,
  ◌==◌, length, any, is_empty,
}
use proxy_switcher.Common.Text.{Text, codes, equal, trim, lowercase}
use proxy_switcher.Common.Utf8.{as_bytes}
use proxy_switcher.Connectors.Base.{show_port}
use proxy_switcher.Pool.Types.{
  Floats, ProxyInfo, ProxyProtocol, http, https, socks4, socks5, unknown,
}

-- `c.is_ascii_alphanumeric()` and the marks of a name or an address.
abbrev pub is_letter : ℕ → Bool
is_letter c = leb b'A' c && leb c b'Z' || leb b'a' c && leb c b'z'

abbrev pub is_host_char : ℕ → Bool
is_host_char c =
    is_letter c || leb b'0' c && leb c b'9' || c == b'.' || c == b'-' || c == b':' || c == b'_'

-- A record of which nothing is known but where it is.
abbrev pub unproved :
    {F : Type 0}
    → F
    → ℕ
    → Text
    → ℕ
    → ProxyProtocol
    → Option Text
    → Option Text
    → Option Text
    → ProxyInfo F
unproved zero now host port protocol password cipher country = record {
  id = host ++ b':' ∷ show_port port;
  host = host;
  port = port;
  protocol = protocol;
  anonymity = unknown;
  latency_ms = none;
  country = none;
  country_reported = country;
  last_checked = none;
  last_success = none;
  first_seen = now;
  next_probe_at = now;
  cipher = cipher;
  password = password;
  supports_tunnel = true;
  exit_ip = none;
  consecutive_failures = 0;
  score = zero;
}

module _ (fl : Floats) (now : ℕ) where
  open fl use {F, of_u64}

  -- `build` of parse.rs
  unfoldable pub build : Text → ℕ → ProxyProtocol → Option Text → Option (ProxyInfo F)
  unfolding trim as_bytes show_port
  build host port protocol country =
      let host = trim host in
      if is_empty host || any (λ c. c == b'/') host || any (λ c. c == 32) host
      then none
      else if ltb 253 (length (as_bytes host)) || any (λ c. not (is_host_char c)) host
      then none
      else some (unproved (of_u64 0) now host port protocol none none country)

  -- `build` of links.rs
  unfoldable pub build_link :
      ProxyProtocol → Text → ℕ → Option Text → Option Text → Option (ProxyInfo F)
  unfolding show_port
  build_link protocol host port password cipher =
      if is_empty host || port == 0
      then none
      else some (unproved (of_u64 0) now host port protocol password cipher none)

abbrev pub is_one_of : Text → List Text → Bool
is_one_of s names = any (equal s) names

abbrev pub protocol_named : Text → Option ProxyProtocol
protocol_named s =
    if is_one_of s (codes "http" ∷ codes "https://" ∷ [])
    then some http
    else if is_one_of s (codes "https" ∷ codes "tls" ∷ codes "ssl" ∷ [])
    then some https
    else if is_one_of s (codes "socks4" ∷ codes "socks 4" ∷ codes "socks4a" ∷ [])
    then some socks4
    else if is_one_of s (codes "socks5" ∷ codes "socks 5" ∷ codes "socks" ∷ [])
    then some socks5
    else none

-- `parse_protocol`
unfoldable pub parse_protocol : Text → Option ProxyProtocol
unfolding equal trim lowercase
parse_protocol name = protocol_named (lowercase (trim name))

abbrev pub or_hint : Option ProxyProtocol → ProxyProtocol → ProxyProtocol
or_hint none hint = hint
or_hint (some p) hint = p

-- `if let Some(proxy) = … { proxies.push(proxy) }`, in front of what is read later.
abbrev pub keep_some : {A : Type 0} → Option A → List A → List A
keep_some none later = later
keep_some (some a) later = a ∷ later
