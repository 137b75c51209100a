-- ===== src/Connectors/Handshakes.antt =====
-- The handshakes of crates/proxy-core/src/proxy/connector: socks5.rs, socks4.rs, http.rs, and of
-- trojan.rs what goes on inside its TLS session. The digest of a Trojan password is a parameter.
use proxy_switcher.Address.{Ipv4Addr, IpAddr, octets}
use proxy_switcher.Common.{
  ℕ, ◌+◌, ◌%◌, Bool, true, false, Option, none, some, List, [], ◌∷◌, ◌++◌, if◌then◌else◌, ltb, ◌==◌,
  length, take, drop,
}
use proxy_switcher.Common.Outcome.{Bytes}
use proxy_switcher.Common.Text.{Text, codes, lines, has_text}
use proxy_switcher.Common.Utf8.{as_bytes, from_utf8_lossy}
use proxy_switcher.Connectors.Address.{encode_address, host_bytes}
use proxy_switcher.Connectors.Base.{
  Target, Credentials, authority, ConnectError, not_socks5, needs_credentials, rejected_credentials,
  host_too_long, unsupported_method, refused, unknown_address_type, odd_trojan_reply, failed_status,
  done, Session, ◌>>=◌, ◌>>◌, return, bail, write_all, read_exact, byte,
}
use proxy_switcher.Packet.Checksum.{be16}
use proxy_switcher.Routing.Cidr.{parse_ipv4, parse_ip_addr}

abbrev pub check : Bool → ConnectError → Session (Unit {0})
check true e = return tt
check false e = bail e

abbrev pub credentials_request : Credentials → Bytes
credentials_request c =
    0x01
    ∷ (length (as_bytes c.username) % 256)
    ∷ (as_bytes c.username ++ ((length (as_bytes c.password) % 256) ∷ as_bytes c.password))

-- Behind the answer that asks for a name and a password.
abbrev pub authenticate : Option Credentials → Session (Unit {0})
authenticate none = bail needs_credentials
authenticate (some c) = do
  write_all (credentials_request c)
  reply ← read_exact 2
  check (byte reply 1 == 0) rejected_credentials

abbrev pub agree : Option Credentials → ℕ → Session (Unit {0})
agree credentials method =
    if method == 0x00
    then return tt
    else if method == 0x02
    then authenticate credentials
    else bail (unsupported_method method)

-- `socks_error`, and `reply_text` of a Trojan server: the code in words.
abbrev pub socks_error : ℕ → Text
socks_error code =
    if code == 1
    then codes "general failure"
    else if code == 2
    then codes "connection not allowed"
    else if code == 3
    then codes "network unreachable"
    else if code == 4
    then codes "host unreachable"
    else if code == 5
    then codes "connection refused"
    else if code == 6
    then codes "TTL expired"
    else if code == 7
    then codes "command not supported"
    else if code == 8
    then codes "address type not supported"
    else codes "unknown error"

-- How long a bound address is; a name says so itself.
abbrev pub bound_len : ConnectError → ℕ → Session ℕ
bound_len odd kind =
    if kind == 0x01
    then return 4
    else if kind == 0x04
    then return 16
    else if kind == 0x03
    then (do len ← read_exact 1; return (byte len 0))
    else bail odd

-- The reply to a request, whose bound address and port are read off the connection, with the error for
-- an address of an unknown kind.
unfoldable pub drain_reply : (Bytes → ConnectError) → Session (Unit {0})
drain_reply odd = do
  reply ← read_exact 4
  check (byte reply 1 == 0) (refused (socks_error (byte reply 1)))
  n ← bound_len (odd reply) (byte reply 3)
  bound ← read_exact (n + 2)
  return tt

module _ (parse_ipv6 : Text → Option ℕ) where
  -- The request, which refuses a name that is longer than its length byte can say.
  abbrev pub socks5_request : Target → Option IpAddr → Session (Unit {0})
  socks5_request t none =
      if ltb 255 (length (as_bytes t.host))
      then bail host_too_long
      else write_all (0x05 ∷ 0x01 ∷ 0x00 ∷ (host_bytes t.host none ++ be16 t.port))
  socks5_request t (some ip) =
      write_all (0x05 ∷ 0x01 ∷ 0x00 ∷ (host_bytes t.host (some ip) ++ be16 t.port))

  -- `Socks5Connector::handshake`
  unfoldable pub socks5_handshake : Target → Option Credentials → Session (Unit {0})
  unfolding parse_ip_addr as_bytes drain_reply
  socks5_handshake t credentials = do
    write_all (0x05 ∷ 0x02 ∷ 0x00 ∷ 0x02 ∷ [])
    answer ← read_exact 2
    check (byte answer 0 == 5) (not_socks5 (byte answer 0))
    agree credentials (byte answer 1)
    socks5_request t (parse_ip_addr parse_ipv6 t.host)
    drain_reply (λ reply. unknown_address_type)

  -- What follows the TLS handshake in `TrojanConnector::connect`, with the digest's hex text.
  unfoldable pub trojan_handshake : Bytes → Target → Session (Unit {0})
  unfolding encode_address drain_reply
  trojan_handshake credential t = do
    write_all credential
    write_all (13 ∷ 10 ∷ [])
    write_all (0x01 ∷ encode_address parse_ipv6 t.host t.port)
    drain_reply odd_trojan_reply

-- The address of a SOCKS4 request, or the one that says that a name follows.
abbrev pub socks4_address : Option Ipv4Addr → Bytes
socks4_address (some ip) = octets ip
socks4_address none = 0 ∷ 0 ∷ 0 ∷ 1 ∷ []

abbrev pub socks4_name : Text → Option Ipv4Addr → Bytes
socks4_name host (some ip) = []
socks4_name host none = as_bytes host ++ 0 ∷ []

unfoldable pub socks4_request : Target → Bytes
unfolding parse_ipv4 as_bytes
socks4_request t =
    0x04
    ∷ 0x01
    ∷ (socks4_address (parse_ipv4 t.host)
        ++ (be16 t.port ++ (codes "proxy-switcher" ++ 0 ∷ socks4_name t.host (parse_ipv4 t.host))))

-- `socks4_error`
abbrev pub socks4_error : ℕ → Text
socks4_error code =
    if code == 0x5b
    then codes "request rejected or failed"
    else if code == 0x5c
    then codes "request rejected because the identd is unreachable"
    else if code == 0x5d
    then codes "request rejected because the identd does not match"
    else codes "unknown error"

-- `Socks4Connector::handshake`
unfoldable pub socks4_handshake : Target → Session (Unit {0})
unfolding socks4_request
socks4_handshake t = do
  write_all (socks4_request t)
  reply ← read_exact 8
  check (byte reply 1 == 0x5a) (refused (socks4_error (byte reply 1)))

abbrev pub status_line : List Text → Text
status_line [] = []
status_line (l ∷ ls) = l

abbrev pub connect_request : Target → Text
connect_request t =
    codes "CONNECT "
    ++ (authority t
        ++ (codes " HTTP/1.1"
            ++ (13
                ∷ 10
                ∷ (codes "Host: "
                    ++ (authority t
                        ++ (13
                            ∷ 10
                            ∷ (codes "Proxy-Connection: keep-alive" ++ 13 ∷ 10 ∷ 13 ∷ 10 ∷ [])))))))

-- One `read` into 1024 bytes, of which the network decides how much it gives.
abbrev pub read_some : ℕ → Session Bytes
read_some given w =
    let n = if ltb given 1024 then given else 1024 in
    done (take n w.incoming) (record w { incoming = drop n w.incoming })

-- `HttpConnector::tunnel`
unfoldable pub http_tunnel : ℕ → Target → Session (Unit {0})
unfolding authority as_bytes from_utf8_lossy lines has_text
http_tunnel given t = do
  write_all (as_bytes (connect_request t))
  response ← read_some given
  let status = status_line (lines (from_utf8_lossy response))
  check (has_text (codes " 200 ") status) (failed_status status)
