-- ===== src/Scraper/Links.antt =====
-- The proxy links of crates/proxy-core/src/scraper/links.rs.
use proxy_switcher.Common.{
  ℕ, ◌+◌, ◌-◌, ◌*◌, not, ◌&&◌, ◌||◌, Option, none, some, List, [], ◌∷◌, map, if◌then◌else◌, leb,
  ◌==◌, is_empty, select,
}
use proxy_switcher.Common.Outcome.{Bytes}
use proxy_switcher.Common.Text.{
  Text, codes, equal, trim, trim_end_by, lowercase, split, split_once, split_once_text, rsplit_once,
  strip_prefix, parse_uint, is_whitespace, lines, starts_with,
}
use proxy_switcher.Common.Utf8.{as_bytes, from_utf8, from_utf8_lossy}
use proxy_switcher.Listener.Base64.{take_digit, onto_bytes}
use proxy_switcher.Pool.Types.{Floats, ProxyInfo, ProxyProtocol, http, socks5, trojan, shadowsocks}
use proxy_switcher.Scraper.Build.{build_link, is_one_of, keep_some}

abbrev pub hex_digit : ℕ → Option ℕ
hex_digit c =
    if leb b'0' c && leb c b'9'
    then some (c - b'0')
    else if leb b'a' c && leb c b'f'
    then some (c - b'a' + 10)
    else if leb b'A' c && leb c b'F'
    then some (c - b'A' + 10)
    else none

abbrev pub hex_pair : Option ℕ → Option ℕ → Option ℕ
hex_pair (some a) (some b) = some (a * 16 + b)
hex_pair _ _ = none

-- `u8::from_str_radix(h, 16)` of two bytes; the number may have a sign.
abbrev pub hex_byte : ℕ → ℕ → Option ℕ
hex_byte a b = if a == b'+' then hex_digit b else hex_pair (hex_digit a) (hex_digit b)

-- The loop of `percent_decode`.
unfoldable pub decode_percents : Bytes → Bytes
decode_percents [] = []
decode_percents (a ∷ []) = a ∷ []
decode_percents (a ∷ b ∷ []) = a ∷ b ∷ []
decode_percents (a ∷ b ∷ c ∷ bs) =
    let kept = a ∷ decode_percents (b ∷ c ∷ bs) in
    elim (if a == b'%' then hex_byte b c else none) [
      | none ↦ kept
      | some x ↦ x ∷ decode_percents bs
    ]

unfoldable pub percent_decode : Text → Text
unfolding decode_percents as_bytes from_utf8_lossy
percent_decode value = from_utf8_lossy (decode_percents (as_bytes value))

-- The digit of standard base64.
abbrev pub link_digit : ℕ → Option ℕ
link_digit c =
    if leb b'A' c && leb c b'Z'
    then some (c - b'A')
    else if leb b'a' c && leb c b'z'
    then some (c - b'a' + 26)
    else if leb b'0' c && leb c b'9'
    then some (c - b'0' + 52)
    else if c == b'+'
    then some 62
    else if c == b'/'
    then some 63
    else none

unfoldable pub decode_link_digits : ℕ → ℕ → Bytes → Option Bytes
unfolding take_digit
decode_link_digits buffer bits [] = some []
decode_link_digits buffer bits (b ∷ bs) = elim (link_digit b) [
  | none ↦ none
  | some value ↦
      let ((buffer', bits'), out) = take_digit buffer bits value in
      onto_bytes out (decode_link_digits buffer' bits' bs)
]

abbrev pub standard : ℕ → ℕ
standard c = if c == b'-' then b'+' else if c == b'_' then b'/' else c

abbrev pub as_text : Option Bytes → Option Text
as_text none = none
as_text (some out) = from_utf8 out

-- `base64_decode` of links.rs: standard or URL-safe, with or without padding.
unfoldable pub base64_text : Text → Option Text
unfolding decode_link_digits is_whitespace as_bytes from_utf8
base64_text value =
    let value = map standard (select (λ c. not (is_whitespace c) && not (c == b'=')) value) in
    if is_empty value then none else as_text (decode_link_digits 0 0 (as_bytes value))

-- The part in front of a query.
abbrev pub first_part : List Text → Text
first_part [] = []
first_part (t ∷ ts) = t

unfoldable pub before_query : Text → Text
unfolding split
before_query s = first_part (split b'?' s)

abbrev pub with_port : Text → Option ℕ → Option (Text × ℕ)
with_port host none = none
with_port host (some port) = some (host, port)

-- The port behind a bracketed host.
abbrev pub bracketed : Option (Text × Text) → Option (Text × ℕ)
bracketed none = none
bracketed (some (host, rest)) = elim (strip_prefix (b':' ∷ []) rest) [
  | none ↦ none
  | some port ↦ with_port host (parse_uint 65535 port)
]

abbrev pub last_numeric : Option (Text × Text) → Option (Text × ℕ)
last_numeric none = none
last_numeric (some (host, port)) =
    if is_empty host then none else with_port host (parse_uint 65535 port)

abbrev pub host_port_of : Text → Option Text → Option (Text × ℕ)
host_port_of value (some rest) = bracketed (split_once b']' rest)
host_port_of value none = last_numeric (rsplit_once b':' value)

-- `split_host_port`
unfoldable pub split_host_port : Text → Option (Text × ℕ)
unfolding trim trim_end_by strip_prefix split_once rsplit_once parse_uint
split_host_port value =
    let value = trim_end_by (λ c. c == b'/') (trim value) in
    host_port_of value (strip_prefix (b'[' ∷ []) value)

abbrev pub or_whole : Option Text → Text → Text
or_whole none t = t
or_whole (some d) t = d

-- The password of `user:password`, if there is one.
abbrev pub password_of : Option (Text × Text) → Option Text
password_of none = none
password_of (some (user, password)) = if is_empty password then none else some password

abbrev pub or_no_credentials : Text → Option (Text × Text) → Text × Text
or_no_credentials rest none = ([], rest)
or_no_credentials rest (some parts) = parts

module _ (fl : Floats) (now : ℕ) where
  open fl use {F}

  abbrev pub linked :
      ProxyProtocol → Option Text → Option Text → Option (Text × ℕ) → Option (ProxyInfo F)
  linked protocol password cipher none = none
  linked protocol password cipher (some (host, port)) =
      build_link fl now protocol host port password cipher

  -- `parse_trojan`
  abbrev pub trojan_of : Option (Text × Text) → Option (ProxyInfo F)
  trojan_of none = none
  trojan_of (some (credentials, host_port)) =
      linked trojan (some (percent_decode (before_query credentials))) none
        (split_host_port (before_query host_port))

  -- `build_shadowsocks`
  abbrev pub shadowsocks_of : Text → Option (Text × Text) → Option (ProxyInfo F)
  shadowsocks_of host_port none = none
  shadowsocks_of host_port (some (method, password)) =
      linked shadowsocks (some password) (some method) (split_host_port host_port)

  abbrev pub build_shadowsocks : Text → Text → Option (ProxyInfo F)
  build_shadowsocks credentials host_port = shadowsocks_of host_port (split_once b':' credentials)

  abbrev pub decoded_link : Option (Text × Text) → Option (ProxyInfo F)
  decoded_link none = none
  decoded_link (some (credentials, host_port)) = build_shadowsocks credentials host_port

  abbrev pub whole_decoded : Option Text → Option (ProxyInfo F)
  whole_decoded none = none
  whole_decoded (some decoded) = decoded_link (split_once b'@' decoded)

  -- `parse_shadowsocks`
  abbrev pub parse_shadowsocks : Text → Option (Text × Text) → Option (ProxyInfo F)
  parse_shadowsocks rest none = whole_decoded (base64_text (before_query rest))
  parse_shadowsocks rest (some (credentials, host_port)) =
      build_shadowsocks (or_whole (base64_text credentials) credentials) (before_query host_port)

  -- `parse_socks`, `parse_http`
  abbrev pub with_user : ProxyProtocol → Text × Text → Option (ProxyInfo F)
  with_user protocol (credentials, host_port) =
      linked protocol (password_of (split_once b':' credentials)) none (split_host_port host_port)

  abbrev pub parse_user : ProxyProtocol → Text → Option (ProxyInfo F)
  parse_user protocol rest =
      let rest = before_query rest in
      with_user protocol (or_no_credentials rest (rsplit_once b'@' rest))

  abbrev pub by_scheme : Option (Text × Text) → Option (ProxyInfo F)
  by_scheme none = none
  by_scheme (some (scheme, rest)) =
      let scheme = lowercase scheme in
      if equal scheme (codes "trojan")
      then trojan_of (split_once b'@' rest)
      else if equal scheme (codes "ss")
      then parse_shadowsocks rest (split_once b'@' rest)
      else if is_one_of scheme (codes "socks5" ∷ codes "socks4" ∷ codes "socks" ∷ [])
      then parse_user socks5 rest
      else if is_one_of scheme (codes "http" ∷ codes "https" ∷ [])
      then parse_user http rest
      else none

  -- `parse_link`
  unfoldable pub parse_link : Text → Option (ProxyInfo F)
  unfolding equal lowercase split_once_text split_once rsplit_once before_query split_host_port
      percent_decode base64_text build_link
  parse_link link = by_scheme (split_once_text (codes "://") link)

  unfoldable pub links_of : List Text → List (ProxyInfo F)
  unfolding trim parse_link starts_with
  links_of [] = []
  links_of (line ∷ rest) =
      let line = trim line in
      let proxies = links_of rest in
      if is_empty line || starts_with (codes "#") line
      then proxies
      else keep_some (parse_link line) proxies

  -- `parse_links`
  unfoldable pub parse_links : Text → List (ProxyInfo F)
  unfolding links_of lines
  parse_links body = links_of (lines body)
