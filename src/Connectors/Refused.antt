-- ===== src/Connectors/Refused.antt =====
-- A SOCKS5 proxy that refuses: what the handshake reports, and what it has sent by then.
use proxy_switcher.Address.{IpAddr}
use proxy_switcher.Common.{
  ℕ, ◌≤◌, ◌≡◌, ◌≢◌, refl, false, Option, none, some, [], ◌∷◌, ◌++◌, arith, length, ◌==◌, le→leb,
}
use proxy_switcher.Common.Outcome.{Bytes}
use proxy_switcher.Common.Text.{Text}
use proxy_switcher.Common.Utf8.{as_bytes}
use proxy_switcher.Connectors.Accepted.{
  Agreement, open_to_all, by_password, given, agreeing, greeting, connect_bytes, wire,
  request_is_sent,
}
use proxy_switcher.Connectors.Base.{
  Target, Credentials, ConnectError, not_socks5, needs_credentials, rejected_credentials,
  unsupported_method, refused, unknown_address_type, failed,
}
use proxy_switcher.Connectors.Handshakes.{
  socks5_handshake, drain_reply, socks_error, credentials_request,
}
use proxy_switcher.Routing.Cidr.{parse_ip_addr}

-- The ways in which a proxy refuses, with the bytes that say so.
pub data Refusal : Type 0 where
  other_protocol : ℕ → ℕ → Option Credentials → Refusal
  other_method : ℕ → Option Credentials → Refusal
  asks_for_password : Refusal
  bad_password : Credentials → ℕ → ℕ → Refusal
  no_connection : Agreement → ℕ → ℕ → ℕ → Refusal
  odd_address : Agreement → ℕ → ℕ → Refusal

-- The version is not 5, the method is none that was offered, a code is not zero, or the kind of the
-- bound address is none of the three.
abbrev pub IsRefusal : Refusal → Type 0
IsRefusal (other_protocol version method c) = version ≢ 5
IsRefusal (other_method method c) = (method ≢ 0) × (method ≢ 2)
IsRefusal asks_for_password = Unit {0}
IsRefusal (bad_password c version code) = code ≢ 0
IsRefusal (no_connection agreement code reserved kind) = code ≢ 0
IsRefusal (odd_address agreement reserved kind) = (kind ≢ 1) × (kind ≢ 3) × (kind ≢ 4)

abbrev pub offered : Refusal → Option Credentials
offered (other_protocol version method c) = c
offered (other_method method c) = c
offered asks_for_password = none
offered (bad_password c version code) = some c
offered (no_connection agreement code reserved kind) = given agreement
offered (odd_address agreement reserved kind) = given agreement

abbrev pub refusing : Refusal → Bytes → Bytes
refusing (other_protocol version method c) rest = version ∷ method ∷ rest
refusing (other_method method c) rest = 5 ∷ method ∷ rest
refusing asks_for_password rest = 5 ∷ 2 ∷ rest
refusing (bad_password c version code) rest = 5 ∷ 2 ∷ version ∷ code ∷ rest
refusing (no_connection agreement code reserved kind) rest =
    agreeing agreement (5 ∷ code ∷ reserved ∷ kind ∷ rest)
refusing (odd_address agreement reserved kind) rest =
    agreeing agreement (5 ∷ 0 ∷ reserved ∷ kind ∷ rest)

abbrev pub reason : Refusal → ConnectError
reason (other_protocol version method c) = not_socks5 version
reason (other_method method c) = unsupported_method method
reason asks_for_password = needs_credentials
reason (bad_password c version code) = rejected_credentials
reason (no_connection agreement code reserved kind) = refused (socks_error code)
reason (odd_address agreement reserved kind) = unknown_address_type

abbrev hello : Bytes
hello = 5 ∷ 2 ∷ 0 ∷ 2 ∷ []

abbrev pub sent_by_then : Target → Option IpAddr → Refusal → Bytes
sent_by_then t ip (other_protocol version method c) = hello
sent_by_then t ip (other_method method c) = hello
sent_by_then t ip asks_for_password = hello
sent_by_then t ip (bad_password c version code) = hello ++ credentials_request c
sent_by_then t ip (no_connection agreement code reserved kind) =
    greeting agreement ++ connect_bytes t ip
sent_by_then t ip (odd_address agreement reserved kind) = greeting agreement ++ connect_bytes t ip

is_not : (n k : ℕ) → n ≢ k → (n == k) ≡ false
is_not n k h = ground arith

module _ (parse_ipv6 : Text → Option ℕ) where
  agreed :
      (t : Target) (agreement : Agreement) (reply : Bytes)
      → length (as_bytes t.host) ≤ 255
      → socks5_handshake parse_ipv6 t (given agreement) (wire (agreeing agreement reply) [])
        ≡ drain_reply
            (λ reply. unknown_address_type)
            (wire reply (greeting agreement ++ connect_bytes t (parse_ip_addr parse_ipv6 t.host)))
  unfolding socks5_handshake
  agreed t (open_to_all c) reply short =
      rw
        (
          le→leb 2 (length (5 ∷ 0 ∷ reply)) (omega arith),
          request_is_sent parse_ipv6 t (parse_ip_addr parse_ipv6 t.host) reply hello short,
        )
        refl
  agreed t (by_password c) reply short =
      rw
        (
          le→leb 2 (length (5 ∷ 2 ∷ 1 ∷ 0 ∷ reply)) (omega arith),
          le→leb 2 (length (1 ∷ 0 ∷ reply)) (omega arith),
          request_is_sent parse_ipv6 t (parse_ip_addr parse_ipv6 t.host) reply
              (hello ++ credentials_request c) short,
        )
        refl

  drain_reply-refused :
      (code reserved kind : ℕ) (rest sent : Bytes)
      → code ≢ 0
      → drain_reply (λ reply. unknown_address_type) (wire (5 ∷ code ∷ reserved ∷ kind ∷ rest) sent)
        ≡ failed (refused (socks_error code)) (wire rest sent)
  unfolding drain_reply
  drain_reply-refused code reserved kind rest sent h =
      rw (le→leb 4 (length (5 ∷ code ∷ reserved ∷ kind ∷ rest)) (omega arith), is_not code 0 h) refl

  drain_reply-odd :
      (reserved kind : ℕ) (rest sent : Bytes)
      → (kind ≢ 1) × (kind ≢ 3) × (kind ≢ 4)
      → drain_reply (λ reply. unknown_address_type) (wire (5 ∷ 0 ∷ reserved ∷ kind ∷ rest) sent)
        ≡ failed unknown_address_type (wire rest sent)
  unfolding drain_reply
  drain_reply-odd reserved kind rest sent (a, b, c) =
      rw
        (
          le→leb 4 (length (5 ∷ 0 ∷ reserved ∷ kind ∷ rest)) (omega arith),
          is_not kind 1 a,
          is_not kind 4 c,
          is_not kind 3 b,
        )
        refl

  -- With a proxy that refuses, the handshake fails with the reason for it: another protocol, a
  -- method that was not offered, a password that is asked for and not there or not taken, a
  -- connection that the proxy does not make, with its code in words, or an address of an
  -- unknown kind. It has then sent nothing beyond what led to the refusal, no request before the two
  -- sides agree, and has left on the connection what stands behind the refusal.
  pub socks5_handshake-refused :
      (t : Target) (r : Refusal) (rest : Bytes)
      → length (as_bytes t.host) ≤ 255
      → IsRefusal r
      → socks5_handshake parse_ipv6 t (offered r) (wire (refusing r rest) [])
        ≡ failed (reason r) (wire rest (sent_by_then t (parse_ip_addr parse_ipv6 t.host) r))
  unfolding socks5_handshake
  socks5_handshake-refused t (other_protocol version method c) rest short h =
      rw (le→leb 2 (length (version ∷ method ∷ rest)) (omega arith), is_not version 5 h) refl
  socks5_handshake-refused t (other_method method c) rest short (h, k) =
      rw (le→leb 2 (length (5 ∷ method ∷ rest)) (omega arith), is_not method 0 h, is_not method 2 k)
        refl
  socks5_handshake-refused t asks_for_password rest short h =
      rw (le→leb 2 (length (5 ∷ 2 ∷ rest)) (omega arith)) refl
  socks5_handshake-refused t (bad_password c version code) rest short h =
      rw
        (
          le→leb 2 (length (5 ∷ 2 ∷ version ∷ code ∷ rest)) (omega arith),
          le→leb 2 (length (version ∷ code ∷ rest)) (omega arith),
          is_not code 0 h,
        )
        refl
  socks5_handshake-refused t (no_connection agreement code reserved kind) rest short h =
      rw (agreed t agreement (5 ∷ code ∷ reserved ∷ kind ∷ rest) short)
        (drain_reply-refused code reserved kind rest _ h)
  socks5_handshake-refused t (odd_address agreement reserved kind) rest short h =
      rw (agreed t agreement (5 ∷ 0 ∷ reserved ∷ kind ∷ rest) short)
        (drain_reply-odd reserved kind rest _ h)
