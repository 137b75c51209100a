-- ===== src/Health/Reported.antt =====
-- What a probe's target says of the request, in crates/proxy-core/src/health/mod.rs, and how the url of
-- a target is read. How the standard library reads and writes an IPv6 address is a parameter.
use proxy_switcher.Address.{IpAddr, v4, v6}
use proxy_switcher.Common.{
  ℕ, zero, suc, Bool, false, not, ◌&&◌, ◌||◌, Option, none, some, List, [], ◌∷◌, if◌then◌else◌, leb,
  ◌==◌, length, any, is_empty, get_elem?, select,
}
use proxy_switcher.Common.Text.{
  Text, codes, equal, trim, trim_start_by, trim_end_by, lowercase, split, split_once,
  split_once_text, rsplit_once, strip_prefix, parse_uint, is_digit, is_whitespace, has_text,
  onto_first,
}
use proxy_switcher.Pool.Types.{Anonymity, transparent, anonymous, elite}
use proxy_switcher.Router.State.{show_ipv4}
use proxy_switcher.Routing.Cidr.{parse_ip_addr}

-- `trim_start_matches` of a text; every round takes a byte at least.
unfoldable pub trim_start_text : ℕ → Text → Text → Text
unfolding strip_prefix
trim_start_text zero prefix s = s
trim_start_text (suc fuel) prefix s = elim (strip_prefix prefix s) [
  | none ↦ s
  | some rest ↦ trim_start_text fuel prefix rest
]

-- `split` at the characters of which a test holds.
unfoldable pub split_by : (ℕ → Bool) → Text → List Text
split_by p [] = [] ∷ []
split_by p (c ∷ s) = let parts = split_by p s in if p c then [] ∷ parts else onto_first c parts

abbrev pub first_or : Text → List Text → Text
first_or default [] = default
first_or default ([] ∷ ts) = default
first_or default ((c ∷ t) ∷ ts) = c ∷ t

-- The first of the lines.
abbrev pub first_line : List Text → Text
first_line [] = []
first_line (l ∷ ls) = l

abbrev pub host_and_path : Text → Option (Text × Text) → Text × Text
host_and_path rest none = (rest, codes "/")
host_and_path rest (some (authority, path)) = (authority, b'/' ∷ path)

abbrev pub or_port : ℕ → Option ℕ → ℕ
or_port default none = default
or_port default (some port) = port

abbrev pub host_and_port : Text → Option (Text × Text) → Text × ℕ
host_and_port authority none = (authority, 80)
host_and_port authority (some (h, p)) =
    if not (is_empty h) && not (any (λ c. not (is_digit c)) p)
    then (h, or_port 80 (parse_uint 65535 p))
    else (authority, 80)

-- `parse_target`: the host, the port and the path.
unfoldable pub parse_target : Text → Text × ℕ × Text
unfolding trim_start_text split_once split_by rsplit_once is_digit parse_uint trim_start_by
    trim_end_by
parse_target url =
    let rest = trim_start_text (length url) (codes "https://") url in
    let rest = trim_start_text (length rest) (codes "http://") rest in
    let (authority, path) = host_and_path rest (split_once b'/' rest) in
    let path = first_or (codes "/") (split_by (λ c. c == b'?' || c == b'#') path) in
    let (host, port) = host_and_port authority (rsplit_once b':' authority) in
    (trim_end_by (λ c. c == b']') (trim_start_by (λ c. c == b'[') host), port, path)

-- What the target saw of the request.
pub record TargetView : Type 0 where
  pub exit_ip : Option IpAddr
  pub headers : List (Text × Text)

abbrev pub or_nothing : Option Text → Text
or_nothing none = []
or_nothing (some t) = t

-- The text between the first two quotation marks.
abbrev pub quoted : Text → Text
quoted s = or_nothing (get_elem? (split b'"' s) 1)

-- A header, if both the key and the value are something, in front of those that are read later.
abbrev pub with_header : Text → Text → List (Text × Text) → List (Text × Text)
with_header key value later =
    if not (is_empty key) && not (is_empty value) then (lowercase key, value) ∷ later else later

abbrev pub header_value : Text → Text
header_value s = quoted (trim_start_by (λ c. c == b'[') (trim_start_by is_whitespace s))

abbrev pub header_at : Text → Option (Text × Text) → List (Text × Text) → List (Text × Text)
header_at key none later = later
header_at key (some (front, value)) later = with_header key (header_value value) later

-- The loop of `parse_target_view`; every round takes two quotation marks.
unfoldable pub read_headers : ℕ → Text → List (Text × Text)
unfolding split_once split lowercase trim_start_by is_whitespace
read_headers zero rest = []
read_headers (suc fuel) rest = elim (split_once b'"' rest) [
  | none ↦ []
  | some (front, after) ↦ elim (split_once b'"' after) [
    | none ↦ []
    | some (key, rest') ↦ header_at key (split_once b':' rest') (read_headers fuel rest')
  ]
]

abbrev pub identifying : List Text
identifying =
    codes "via"
    ∷ codes "proxy-connection"
    ∷ codes "x-forwarded-for"
    ∷ codes "x-forwarded-proto"
    ∷ codes "forwarded"
    ∷ []

abbrev pub is_identifying : Text × Text → Bool
is_identifying (name, value) = any (equal name) identifying

-- The first header of a name.
unfoldable pub header_of : Text → List (Text × Text) → Option Text
unfolding equal
header_of name [] = none
header_of name ((n, value) ∷ headers) = if equal n name then some value else header_of name headers

module _ (show_ipv6 : ℕ → Text) where
  abbrev pub show_ip : IpAddr → Text
  show_ip (v4 ip) = show_ipv4 ip
  show_ip (v6 n) = show_ipv6 n

  abbrev pub leaks : Option Text → Option IpAddr → Bool
  leaks (some forwarded) (some own) = has_text (show_ip own) forwarded
  leaks _ _ = false

  -- `classify_anonymity`
  unfoldable pub classify_anonymity : TargetView → Option IpAddr → Option Anonymity
  unfolding header_of has_text show_ipv4 equal
  classify_anonymity view own_exit_ip =
      if leaks (header_of (codes "x-forwarded-for") view.headers) own_exit_ip
      then some transparent
      else if any is_identifying view.headers
      then some anonymous
      else some elite

module _ (parse_ipv6 : Text → Option ℕ) where
  -- `body.split(key).nth(1)`: what stands between the first key and the second.
  abbrev pub up_to : Text → Option (Text × Text) → Text
  up_to after none = after
  up_to after (some (front, back)) = front

  abbrev pub value_of_key : Text → Option (Text × Text) → Option IpAddr
  value_of_key key none = none
  value_of_key key (some (front, after)) =
      parse_ip_addr parse_ipv6 (trim (quoted (up_to after (split_once_text key after))))

  abbrev pub or_later : Option IpAddr → Option IpAddr → Option IpAddr
  or_later none later = later
  or_later (some ip) later = some ip

  abbrev pub is_graphic : ℕ → Bool
  is_graphic c = leb 0x21 c && leb c 0x7e

  unfoldable pub first_address : List Text → Option IpAddr
  unfolding trim_start_by trim_end_by parse_ip_addr
  first_address [] = none
  first_address (token ∷ tokens) =
      let later = first_address tokens in
      or_later
        (parse_ip_addr parse_ipv6
          (trim_end_by (λ c. not (is_graphic c)) (trim_start_by (λ c. not (is_graphic c)) token)))
        later

  -- `extract_exit_ip`
  unfoldable pub extract_exit_ip : Text → Option IpAddr
  unfolding split_once_text split trim parse_ip_addr split_by first_address is_whitespace
  extract_exit_ip body =
      or_later (value_of_key (codes "\"ip\"") (split_once_text (codes "\"ip\"") body)) (
        or_later (value_of_key (codes "\"origin\"") (split_once_text (codes "\"origin\"") body)) (
          or_later (value_of_key (codes "\"query\"") (split_once_text (codes "\"query\"") body)) (
            first_address (
              select (λ t. not (is_empty t))
                (split_by (λ c. is_whitespace c || c == b',' || c == b'"' || c == b'<') body)))))

  -- `parse_target_view`
  unfoldable pub parse_target_view : Text → TargetView
  unfolding has_text read_headers extract_exit_ip
  parse_target_view body = record {
    exit_ip = extract_exit_ip body;
    headers = if has_text (codes "\"headers\"") body then read_headers (length body) body else [];
  }
