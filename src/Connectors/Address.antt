-- ===== src/Connectors/Address.antt =====
-- The target's address as the protocols write it: crates/proxy-core/src/proxy/connector, `address` of
-- trojan.rs, `encode_address` and `decode_address` of shadowsocks.rs, and the request of socks5.rs. How
-- the standard library reads and writes an IPv6 address is a parameter.
use mathlib.Core.Option
use proxy_switcher.Address.{Ipv4Addr, IpAddr, v4, v6, octets}
use proxy_switcher.Common.{
  ℕ, zero, suc, ◌+◌, ◌-◌, ◌*◌, ◌/◌, ◌%◌, ◌^◌, Option, none, some, [], ◌∷◌, ◌++◌, if◌then◌else◌, leb,
  ◌==◌, length, take, drop, get_elem?,
}
use proxy_switcher.Common.Outcome.{Bytes}
use proxy_switcher.Common.Text.{Text}
use proxy_switcher.Common.Utf8.{as_bytes, from_utf8_lossy}
use proxy_switcher.Packet.Checksum.{be16}
use proxy_switcher.Router.State.{show_ipv4}
use proxy_switcher.Routing.Cidr.{parse_ip_addr}

-- The lowest bytes of a number, the highest of them first.
unfoldable pub be_bytes : ℕ → ℕ → Bytes
be_bytes zero n = []
be_bytes (suc k) n = (n / 256 ^ k % 256) ∷ be_bytes k n

-- The number that bytes stand for, behind what was read.
abbrev pub be_value : ℕ → Bytes → ℕ
be_value acc [] = acc
be_value acc (b ∷ bs) = be_value (acc * 256 + b) bs

-- A name, with its length in one byte.
abbrev pub name_bytes : Text → Bytes
name_bytes host = 0x03 ∷ (length (as_bytes host) % 256) ∷ as_bytes host

abbrev pub host_bytes : Text → Option IpAddr → Bytes
host_bytes host (some (v4 ip)) = 0x01 ∷ octets ip
host_bytes host (some (v6 n)) = 0x04 ∷ be_bytes 16 n
host_bytes host none = name_bytes host

module _ (parse_ipv6 : Text → Option ℕ) where
  -- `encode_address`, and `address` of a Trojan request.
  unfoldable pub encode_address : Text → ℕ → Bytes
  unfolding parse_ip_addr as_bytes be_bytes
  encode_address host port = host_bytes host (parse_ip_addr parse_ipv6 host) ++ be16 port

-- `raw.get(from..to)`
abbrev pub slice : ℕ → ℕ → Bytes → Option Bytes
slice from to raw = if leb to (length raw) then some (take (to - from) (drop from raw)) else none

abbrev pub ipv4_of : Bytes → Option Ipv4Addr
ipv4_of (a ∷ b ∷ c ∷ d ∷ []) = some (record { a = a; b = b; c = c; d = d })
ipv4_of _ = none

abbrev pub shown_ipv4 : Option Bytes → Option Text
shown_ipv4 none = none
shown_ipv4 (some bytes) = Option.map show_ipv4 (ipv4_of bytes)

-- The last two bytes.
abbrev pub last_port : Bytes → Option ℕ
last_port [] = none
last_port (a ∷ []) = none
last_port (a ∷ b ∷ []) = some (a * 256 + b)
last_port (a ∷ b ∷ c ∷ bs) = last_port (b ∷ c ∷ bs)

abbrev pub with_port : Option Text → Option ℕ → Option (Text × ℕ)
with_port (some host) (some port) = some (host, port)
with_port _ _ = none

abbrev pub name_at : Bytes → Option ℕ → Option Text
name_at raw none = none
name_at raw (some n) = Option.map from_utf8_lossy (slice 2 (2 + n) raw)

module _ (show_ipv6 : ℕ → Text) where
  abbrev pub decode_host : Bytes → Option Text
  decode_host [] = none
  decode_host (kind ∷ bs) =
      if kind == 0x01
      then shown_ipv4 (slice 1 5 (kind ∷ bs))
      else if kind == 0x04
      then Option.map (λ bytes. show_ipv6 (be_value 0 bytes)) (slice 1 17 (kind ∷ bs))
      else if kind == 0x03
      then name_at (kind ∷ bs) (get_elem? (kind ∷ bs) 1)
      else none

  -- `decode_address`
  unfoldable pub decode_address : Bytes → Option (Text × ℕ)
  unfolding show_ipv4 from_utf8_lossy
  decode_address raw = with_port (decode_host raw) (last_port raw)
