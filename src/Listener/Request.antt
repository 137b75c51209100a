-- ===== src/Listener/Request.antt =====
-- The requests of crates/proxy-core/src/local_proxy.rs: how the head is read, whom it is for, and who
-- sends it.
use mathlib.Core.Option
use proxy_switcher.Address.{IpAddr}
use proxy_switcher.Common.{
  ℕ, ◌*◌, ◌-◌, Bool, false, not, ◌&&◌, ◌||◌, Option, none, some, List, [], ◌∷◌, ◌++◌, if◌then◌else◌,
  leb, ltb, length, get_elem?, drop, any, is_empty,
}
use proxy_switcher.Common.Outcome.{Bytes}
use proxy_switcher.Common.Text.{
  Text, codes, equal, trim, strip_prefix, strip_suffix, split, split_once, parse_uint, is_digit,
  words, lines, rsplit_once,
}
use proxy_switcher.Common.Utf8.{as_bytes, from_utf8_lossy}
use proxy_switcher.Connectors.Base.{Target}
use proxy_switcher.Credentials.Policy.{eq_ignore_case}
use proxy_switcher.Listener.Base64.{base64_decode}
use proxy_switcher.Pool.Types.{is_some}
use proxy_switcher.Routing.Cidr.{parse_ip_addr}
use proxy_switcher.Routing.Local.{is_local}

pub record RequestHead : Type 0 where
  pub method : Text
  pub raw : Bytes

-- The end of a head that is being read, and how a head comes out.
abbrev pub is_crlf_twice : Bytes → Bool
is_crlf_twice bs = equal bs (13 ∷ 10 ∷ 13 ∷ 10 ∷ [])

pub data HeadRead : Type 0 where
  too_large : HeadRead
  read : Bytes → Bytes → HeadRead

-- The loop of `read_request_head` over the bytes of the connection up to its end: the head, and what
-- is left on the connection.
unfoldable pub read_head : Bytes → Bytes → HeadRead
unfolding equal
read_head raw [] = read raw []
read_head raw (b ∷ rest) =
    let grown = raw ++ b ∷ [] in
    let more = read_head grown rest in
    if leb 4 (length grown) && is_crlf_twice (drop (length grown - 4) grown)
    then read grown rest
    else if ltb (64 * 1024) (length grown)
    then too_large
    else more

abbrev pub first_of : List Text → Text
first_of [] = []
first_of (t ∷ ts) = t

abbrev pub head_of : Bytes → Option RequestHead
head_of [] = none
head_of (b ∷ bs) =
    some (record { method = first_of (words (from_utf8_lossy (b ∷ bs))); raw = b ∷ bs })

-- `port.parse().ok()?` behind the test that a port is digits.
abbrev pub is_port : Text → Bool
is_port port = not (is_empty port) && not (any (λ c. not (is_digit c)) port)

abbrev pub target_at : Text → Option ℕ → Option Target
target_at host none = none
target_at host (some port) = some (record { host = host; port = port })

-- The host and the port of an authority, with the port that it has if it names none.
abbrev pub target_of_parts : Text → ℕ → Option (Text × Text) → Option Target
target_of_parts whole default none = some (record { host = whole; port = default })
target_of_parts whole default (some (host, port)) =
    if is_port port
    then target_at host (parse_uint 65535 port)
    else some (record { host = whole; port = default })

-- `parse_authority`
unfoldable pub parse_authority : Text → Option Target
unfolding rsplit_once is_digit parse_uint
parse_authority authority = target_of_parts authority 443 (rsplit_once b':' authority)

abbrev pub or_second : {A : Type 0} → Option A → Option A → Option A
or_second none o = o
or_second (some a) o = some a

abbrev pub authority_of : Text → Option (Text × Text) → Text × Text
authority_of rest none = (rest, codes "/")
authority_of rest (some (authority, path)) = (authority, b'/' ∷ path)

-- `split_absolute_uri`
unfoldable pub split_absolute_uri : Text → Option (Text × Text)
unfolding strip_prefix split_once
split_absolute_uri uri =
    Option.map (λ rest. authority_of rest (split_once b'/' rest))
      (or_second (strip_prefix (codes "http://") uri) (strip_prefix (codes "https://") uri))

abbrev pub target_of_uri : Option (Text × Text) → Option Target
target_of_uri none = none
target_of_uri (some (host, path)) = target_of_parts host 80 (rsplit_once b':' host)

abbrev pub target_of_line : List Text → Option Target
target_of_line (method ∷ request_target ∷ rest) =
    if eq_ignore_case method (codes "CONNECT")
    then parse_authority request_target
    else target_of_uri (split_absolute_uri request_target)
target_of_line _ = none

-- `RequestHead::target`
unfoldable pub target : RequestHead → Option Target
unfolding split words parse_authority split_absolute_uri rsplit_once eq_ignore_case is_digit
    parse_uint from_utf8_lossy
target head = target_of_line (words (from_utf8_lossy (first_of (split 10 head.raw))))

abbrev pub is_authorization : Option (Text × Text) → Bool
is_authorization none = false
is_authorization (some (name, value)) = eq_ignore_case (trim name) (codes "proxy-authorization")

-- The value of the header, of the first line that is one.
unfoldable pub authorization : List Text → Option Text
unfolding split_once eq_ignore_case trim
authorization [] = none
authorization (line ∷ rest) =
    let later = authorization rest in
    if is_authorization (split_once b':' line)
    then Option.map (λ (p : Text × Text). trim p.1) (split_once b':' line)
    else later

-- The encoded part, behind the word "Basic".
abbrev pub encoded_of : Option Text → Option Text
encoded_of none = none
encoded_of (some value) = get_elem? (words value) 1

abbrev pub name_and_password : Option Bytes → Option (Text × Text)
name_and_password none = none
name_and_password (some decoded) = split_once b':' (from_utf8_lossy decoded)

abbrev pub decoded_of : Option Text → Option Bytes
decoded_of none = none
decoded_of (some encoded) = base64_decode (as_bytes encoded)

-- `RequestHead::credentials`
unfoldable pub credentials : RequestHead → Option (Text × Text)
unfolding lines words split_once authorization from_utf8_lossy base64_decode as_bytes
credentials head =
    name_and_password (decoded_of (encoded_of (authorization (lines (from_utf8_lossy head.raw)))))

module _ (parse_ipv6 : Text → Option ℕ) where
  abbrev pub is_local_host : Text → Option IpAddr → Bool
  is_local_host host (some address) = is_local address
  is_local_host host none =
      equal host (codes "localhost") || is_some (strip_suffix (codes ".localhost") host)

  -- `is_local_target`
  unfoldable pub is_local_target : Target → Bool
  unfolding is_local parse_ip_addr equal strip_suffix
  is_local_target t = is_local_host t.host (parse_ip_addr parse_ipv6 t.host)
