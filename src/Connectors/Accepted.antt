-- ===== src/Connectors/Accepted.antt =====
-- A SOCKS5 proxy that accepts: what the handshake sends, and what it leaves on the connection.
use mathlib.Core.List.{append_assoc}
use proxy_switcher.Address.{IpAddr}
use proxy_switcher.Common.{
  ℕ, ◌+◌, ◌<◌, ◌≤◌, ◌≡◌, refl, sym, Option, none, some, [], ◌∷◌, ◌++◌, arith, length, length-append,
  take-append, drop-append, leb, le→leb, le→ltb_false, true,
}
use proxy_switcher.Common.Outcome.{Bytes}
use proxy_switcher.Common.Text.{Text}
use proxy_switcher.Common.Utf8.{as_bytes}
use proxy_switcher.Connectors.Address.{host_bytes}
use proxy_switcher.Connectors.Base.{
  ConnectError, unknown_address_type, Target, Credentials, Wire, done, read_exact,
}
use proxy_switcher.Connectors.Handshakes.{
  socks5_handshake, drain_reply, credentials_request, socks5_request,
}
use proxy_switcher.Packet.Checksum.{be16}
use proxy_switcher.Routing.Cidr.{parse_ip_addr}

-- The address that a proxy says it is bound to.
pub data Bound : Type 0 where
  at_ipv4 at_ipv6 at_name : Bytes → Bound

abbrev pub IsBound : Bound → Type 0
IsBound (at_ipv4 bs) = length bs ≡ 4
IsBound (at_ipv6 bs) = length bs ≡ 16
IsBound (at_name bs) = length bs < 256

abbrev pub bound_bytes : Bound → Bytes
bound_bytes (at_ipv4 bs) = 0x01 ∷ bs
bound_bytes (at_ipv6 bs) = 0x04 ∷ bs
bound_bytes (at_name bs) = 0x03 ∷ length bs ∷ bs

-- A reply that accepts, in front of what the target sends.
abbrev pub accepting : Bound → Bytes → Bytes → Bytes
accepting bound port rest = 0x05 ∷ 0x00 ∷ 0x00 ∷ (bound_bytes bound ++ (port ++ rest))

abbrev pub wire : Bytes → Bytes → Wire
wire incoming sent = record { incoming = incoming; sent = sent }

-- Reading what stands in front, in two parts.
read_two :
    (n : ℕ) (bs port rest sent : Bytes)
    → length bs ≡ n
    → length port ≡ 2
    → read_exact (n + 2) (wire (bs ++ (port ++ rest)) sent) ≡ done (bs ++ port) (wire rest sent)
read_two n bs port rest sent e f =
    let whole : n + 2 ≡ length (bs ++ port) = omega (arith, length-append bs port, e, f) in
    let fits : leb (length (bs ++ port)) (length ((bs ++ port) ++ rest)) ≡ true =
      le→leb _ _ (omega (arith, length-append (bs ++ port) rest)) in
    rw (sym (append_assoc bs port rest), whole, fits)
      (ap2 (take-append (bs ++ port) rest) (drop-append (bs ++ port) rest))
  where
    ap2 : {x y u v : Bytes} → x ≡ y → u ≡ v → done x (wire u sent) ≡ done y (wire v sent)
    ap2 p q = cc

drain_reply-accepting :
    (odd : Bytes → ConnectError) (bound : Bound) (port rest sent : Bytes)
    → IsBound bound
    → length port ≡ 2
    → drain_reply odd (wire (accepting bound port rest) sent) ≡ done tt (wire rest sent)
unfolding drain_reply
drain_reply-accepting odd (at_ipv4 bs) port rest sent e f =
    rw
      (
        le→leb 4 (length (accepting (at_ipv4 bs) port rest)) (omega arith),
        read_two 4 bs port rest sent e f,
      )
      refl
drain_reply-accepting odd (at_ipv6 bs) port rest sent e f =
    rw
      (
        le→leb 4 (length (accepting (at_ipv6 bs) port rest)) (omega arith),
        read_two 16 bs port rest sent e f,
      )
      refl
drain_reply-accepting odd (at_name bs) port rest sent e f =
    rw
      (
        le→leb 4 (length (accepting (at_name bs) port rest)) (omega arith),
        le→leb 1 (length (length bs ∷ (bs ++ (port ++ rest)))) (omega arith),
        read_two (length bs) bs port rest sent refl f,
      )
      refl

-- How the proxy and the client agree: without a password, or with one that the proxy takes.
pub data Agreement : Type 0 where
  open_to_all : Option Credentials → Agreement
  by_password : Credentials → Agreement

abbrev pub given : Agreement → Option Credentials
given (open_to_all c) = c
given (by_password c) = some c

abbrev pub agreeing : Agreement → Bytes → Bytes
agreeing (open_to_all c) rest = 0x05 ∷ 0x00 ∷ rest
agreeing (by_password c) rest = 0x05 ∷ 0x02 ∷ 0x01 ∷ 0x00 ∷ rest

abbrev pub greeting : Agreement → Bytes
greeting (open_to_all c) = 0x05 ∷ 0x02 ∷ 0x00 ∷ 0x02 ∷ []
greeting (by_password c) = (0x05 ∷ 0x02 ∷ 0x00 ∷ 0x02 ∷ []) ++ credentials_request c

abbrev pub connect_bytes : Target → Option IpAddr → Bytes
connect_bytes t ip = 0x05 ∷ 0x01 ∷ 0x00 ∷ (host_bytes t.host ip ++ be16 t.port)

module _ (parse_ipv6 : Text → Option ℕ) where
  pub request_is_sent :
      (t : Target) (ip : Option IpAddr) (incoming sent : Bytes)
      → length (as_bytes t.host) ≤ 255
      → socks5_request parse_ipv6 t ip (wire incoming sent)
        ≡ done tt (wire incoming (sent ++ connect_bytes t ip))
  request_is_sent t none incoming sent short =
      rw (le→ltb_false 255 (length (as_bytes t.host)) short) refl
  request_is_sent t (some ip) incoming sent short = refl

  -- With a proxy that agrees and accepts, the handshake succeeds; it has then sent the greeting, the
  -- credentials if the proxy asked for them, and the request for the target, and it has read the
  -- proxy's answers to the last byte and nothing of what the target sends behind them.
  pub socks5_handshake-accepting :
      (t : Target) (agreement : Agreement) (bound : Bound) (port rest : Bytes)
      → length (as_bytes t.host) ≤ 255
      → IsBound bound
      → length port ≡ 2
      → socks5_handshake parse_ipv6 t
          (given agreement)
          (wire (agreeing agreement (accepting bound port rest)) [])
        ≡ done tt
            (wire rest (greeting agreement ++ connect_bytes t (parse_ip_addr parse_ipv6 t.host)))
  unfolding socks5_handshake
  socks5_handshake-accepting t (open_to_all c) bound port rest short b f =
      let ip = parse_ip_addr parse_ipv6 t.host in
      let reply = accepting bound port rest in
      rw
        (
          le→leb 2 (length (0x05 ∷ 0x00 ∷ reply)) (omega arith),
          request_is_sent t ip reply (0x05 ∷ 0x02 ∷ 0x00 ∷ 0x02 ∷ []) short,
        )
        (drain_reply-accepting (λ reply. unknown_address_type) bound port rest _ b f)
  socks5_handshake-accepting t (by_password c) bound port rest short b f =
      let ip = parse_ip_addr parse_ipv6 t.host in
      let reply = accepting bound port rest in
      rw
        (
          le→leb 2 (length (0x05 ∷ 0x02 ∷ 0x01 ∷ 0x00 ∷ reply)) (omega arith),
          le→leb 2 (length (0x01 ∷ 0x00 ∷ reply)) (omega arith),
          request_is_sent t ip reply ((0x05 ∷ 0x02 ∷ 0x00 ∷ 0x02 ∷ []) ++ credentials_request c)
              short,
        )
        (drain_reply-accepting (λ reply. unknown_address_type) bound port rest _ b f)
