-- ===== src/Connectors/Readable.antt =====
-- The address that is written is the address that is read.
use proxy_switcher.Address.{Ipv4Addr, IpAddr, v4}
use proxy_switcher.Common.{
  ℕ, ◌+◌, ◌-◌, ◌*◌, ◌/◌, ◌%◌, ◌≤◌, ◌≡◌, refl, ap, Option, none, some, [], ◌∷◌, ◌++◌, arith, true,
  length, length-append, take-append, leb, le→leb,
}
use proxy_switcher.Common.Outcome.{Bytes}
use proxy_switcher.Common.Text.{Text}
use proxy_switcher.Common.Utf8.{as_bytes, IsText, from_utf8_lossy-as_bytes}
use proxy_switcher.Connectors.Address.{encode_address, decode_address, last_port, slice}
use proxy_switcher.Packet.Checksum.{be16}
use proxy_switcher.Router.State.{show_ipv4}
use proxy_switcher.Routing.Cidr.{parse_ip_addr}

last_port-append : (bs : Bytes) (a b : ℕ) → last_port (bs ++ a ∷ b ∷ []) ≡ some (a * 256 + b)
last_port-append [] a b = refl
last_port-append (x ∷ []) a b = refl
last_port-append (x ∷ y ∷ []) a b = refl
last_port-append (x ∷ y ∷ z ∷ bs) a b = last_port-append (y ∷ z ∷ bs) a b

-- A name between its length and a port.
slice_name :
    (k n : ℕ) (bs rest : Bytes) → length bs ≡ n → slice 2 (2 + n) (k ∷ n ∷ (bs ++ rest)) ≡ some bs
slice_name k n bs rest e =
    let fits : leb (2 + n) (length (k ∷ n ∷ (bs ++ rest))) ≡ true =
      le→leb _ _ (omega (arith, length-append bs rest, e)) in
    let whole : 2 + n - 2 ≡ length bs = omega (arith, e) in
    rw (fits, whole) (ap some (take-append bs rest))

-- What the address of a target is read as: an IPv4 address as it is shown, a name as it is.
abbrev pub read_host : Text → Option Ipv4Addr → Text
read_host host none = host
read_host host (some ip) = show_ipv4 ip

abbrev as_ip : Option Ipv4Addr → Option IpAddr
as_ip none = none
as_ip (some ip) = some (v4 ip)

module _ (parse_ipv6 : Text → Option ℕ) (show_ipv6 : ℕ → Text) where
  -- The address that a session is opened with is read back as it was meant, with its port, for an
  -- IPv4 address and for a name of at most 255 bytes.
  pub decode_address-encode_address :
      (host : Text) (ip : Option Ipv4Addr) (port : ℕ)
      → parse_ip_addr parse_ipv6 host ≡ as_ip ip
      → IsText host
      → length (as_bytes host) ≤ 255
      → decode_address show_ipv6 (encode_address parse_ipv6 host port)
        ≡ some (read_host host ip, port)
  unfolding decode_address encode_address
  decode_address-encode_address host none port e t short =
      let bytes = as_bytes host in
      let n : length bytes % 256 ≡ length bytes = omega (arith, short) in
      rw
        (
          e,
          n,
          last_port-append (0x03 ∷ length bytes ∷ bytes) (port / 256) (port % 256),
          slice_name 0x03 (length bytes) bytes (be16 port) refl,
          from_utf8_lossy-as_bytes host t,
        )
        (ap (λ p. some (host, p)) (omega arith))
  decode_address-encode_address host (some ip) port e t short =
      rw e (ap (λ p. some (show_ipv4 ip, p)) (omega arith))
