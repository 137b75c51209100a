-- ===== src/Router/Flows.antt =====
-- Data on tracked flows, and UDP: crates/proxy-core/src/router/mod.rs and
-- crates/proxy-core/src/router/udp.rs. A length of a payload is below 2^32.
use proxy_switcher.Address.{Ipv4Addr}
use proxy_switcher.Common.{
  ℕ, ◌+◌, ◌-◌, ◌%◌, ◌^◌, Bool, true, false, Option, none, some, List, [], ◌∷◌, ◌++◌, map,
  if◌then◌else◌, ltb, ◌==◌, select, length, drop, is_empty,
}
use proxy_switcher.Common.Outcome.{Outcome, ok, ◌>>=◌, Bytes, be16_at}
use proxy_switcher.Common.Text.{Text}
use proxy_switcher.Dns.Cache.{Cache, insert}
use proxy_switcher.Dns.Names.{OutOfFuel}
use proxy_switcher.Dns.Response.{parse_dns_response}
use proxy_switcher.Packet.Build.{build_tcp_packet, build_udp_packet}
use proxy_switcher.Packet.Parse.{ParsedPacket, is_tcp_fin}
use proxy_switcher.Packet.Tcp.{TcpHeader}
use proxy_switcher.Router.Outgoing.{flow_of}
use proxy_switcher.Router.State.{FlowKey, key_eq, TcpState, tracked, track, untrack, Router}

module _ {F : Type 0} where
  -- The write of a payload to a tracked connection; `writes` is the connection's answer.
  abbrev pub forward : Bool → FlowKey → TcpState → ℕ → Bytes → Router F → Router F
  forward true key s seq payload r = record r {
    bytes_out = (r.bytes_out + length payload) % 2 ^ 64;
    tracker = track r.tracker key (record s { client_next_seq = (seq + length payload) % 2 ^ 32 });
  }
  forward false key s seq payload r = record r {
    bytes_out = (r.bytes_out + length payload) % 2 ^ 64;
    tracker = untrack r.tracker key;
  }

  -- The end of a stream forgets the flow.
  abbrev pub close_if : Bool → FlowKey → Router F → Router F
  close_if true key r = record r { tracker = untrack r.tracker key }
  close_if false key r = r

  unfoldable pub data_on : Bool → FlowKey → ℕ → Bool → Bytes → Option TcpState → Router F → Router F
  unfolding track untrack
  data_on writes key seq fin payload none r = close_if fin key r
  data_on writes key seq fin [] (some s) r = close_if fin key r
  data_on writes key seq fin (b ∷ bs) (some s) r =
      let written = forward writes key s seq (b ∷ bs) r in
      if writes then close_if fin key written else written

  unfoldable pub data_of : Bool → ParsedPacket → Option TcpHeader → Router F → Router F
  unfolding data_on tracked
  data_of writes packet none r = r
  data_of writes packet (some tcp) r =
      let key = flow_of packet tcp in
      data_on writes key tcp.sequence_number (is_tcp_fin packet) packet.payload
        (tracked r.tracker key) r

  -- `handle_data`
  unfoldable pub handle_data : Bool → ParsedPacket → Router F → Router F
  unfolding data_of
  handle_data writes packet r = data_of writes packet packet.tcp r

-- What `try_read` gives: bytes, of which none is the end of the stream, nothing yet, or an error.
pub data Reading : Type 0 where
  bytes : Bytes → Reading
  would_block : Reading
  broken : Reading

-- The names of a DNS response join the cache.
abbrev pub learn : List (Text × Ipv4Addr) → Cache → Cache
learn [] c = c
learn ((host, ip) ∷ ms) c = learn ms (insert c ip host)

module _ {F : Type 0} where
  abbrev pub pump_bytes : FlowKey → TcpState → Bytes → Router F → Router F × List Bytes
  pump_bytes key s [] r = (record r { tracker = untrack r.tracker key }, [])
  pump_bytes key s (b ∷ bs) r = (
    record r {
      bytes_in = (r.bytes_in + length (b ∷ bs)) % 2 ^ 64;
      tracker =
          track r.tracker key
            (record s { server_next_seq = (s.server_next_seq + length (b ∷ bs)) % 2 ^ 32 });
    },
    build_tcp_packet key.dst_ip key.src_ip key.dst_port key.src_port s.server_next_seq
          s.client_next_seq 0x18 (b ∷ bs)
        ∷ [],
  )

  abbrev pub pump_reading : FlowKey → TcpState → Reading → Router F → Router F × List Bytes
  pump_reading key s (bytes d) r = pump_bytes key s d r
  pump_reading key s would_block r = (r, [])
  pump_reading key s broken r = (record r { tracker = untrack r.tracker key }, [])

  -- One key of the loop of `pump_responses`.
  unfoldable pub pump_one : FlowKey → Reading → Router F → Router F × List Bytes
  unfolding tracked track untrack
  pump_one key reading r = elim (tracked r.tracker key) [
    | none ↦ (r, [])
    | some s ↦ pump_reading key s reading r
  ]

  -- The loop, over the keys with what each connection gives.
  unfoldable pub pump_each : List (FlowKey × Reading) → Router F → Router F × List Bytes
  unfolding pump_one
  pump_each [] r = (r, [])
  pump_each ((key, reading) ∷ ks) r =
      let (next, one) = pump_one key reading r in
      let rest = pump_each ks next in (rest.0, one ++ rest.1)

  -- `pump_responses`
  unfoldable pub pump_responses : (FlowKey → Reading) → Router F → Router F × List Bytes
  unfolding pump_each
  pump_responses reads r =
      pump_each (map (λ (e : FlowKey × TcpState). (e.0, reads e.0)) r.tracker) r

  -- One answer of a UDP flow, as `pump_udp` treats it.
  unfoldable pub pump_udp_one :
      ℕ → FlowKey → Bytes → Router F → Outcome OutOfFuel (Router F × Bytes)
  unfolding parse_dns_response insert ◌>>=◌
  pump_udp_one fuel key payload r =
      let pkt = build_udp_packet key.dst_ip key.src_ip key.dst_port key.src_port payload in
      if key.dst_port == 53
      then (do
        mappings ← parse_dns_response fuel payload
        ok (record r { dns_cache = learn mappings r.dns_cache }, pkt))
      else ok (r, pkt)

-- A UDP flow: its key, which has the fields of a TCP flow's, and the clock of its last use.
abbrev pub UdpFlows : Type 0
UdpFlows = List (FlowKey × ℕ)

unfoldable pub last_active : UdpFlows → FlowKey → Option ℕ
last_active [] key = none
last_active ((k, t) ∷ fs) key = if key_eq k key then some t else last_active fs key

abbrev pub touch : UdpFlows → FlowKey → ℕ → UdpFlows
touch [] key now = []
touch ((k, t) ∷ fs) key now = if key_eq k key then (k, now) ∷ fs else (k, t) ∷ touch fs key now

-- `send_or_create`, with what the opening of a socket and the sending answer: the flows behind it,
-- and whether the data went out.
unfoldable pub send_or_create : Bool → Bool → FlowKey → ℕ → UdpFlows → UdpFlows × Bool
unfolding last_active
send_or_create opens sends key now flows = elim (last_active flows key) [
  | some t ↦ (touch flows key now, sends)
  | none ↦ if opens then ((key, now) ∷ flows, sends) else (flows, false)
]

-- `cleanup_stale`, in nanoseconds
unfoldable pub cleanup_stale : ℕ → UdpFlows → UdpFlows
cleanup_stale now flows = select (λ (f : FlowKey × ℕ). ltb (now - f.1) 60_000_000_000) flows

-- The key and the data of a UDP packet, if it has data.
unfoldable pub udp_request : ParsedPacket → Outcome OutOfFuel (Option (FlowKey × Bytes))
unfolding be16_at ◌>>=◌
udp_request packet = if ltb (length packet.payload) 8 then ok none else do
  src_port ← be16_at packet.payload 0
  dst_port ← be16_at packet.payload 2
  let body = drop 8 packet.payload in
      if is_empty body
      then ok none
      else ok (
          some (
            record {
              src_ip = packet.ip.source;
              src_port = src_port;
              dst_ip = packet.ip.destination;
              dst_port = dst_port;
            },
            body,
          ))

abbrev pub request_on : Bool → Bool → ℕ → UdpFlows → Option (FlowKey × Bytes) → UdpFlows
request_on opens sends now flows none = flows
request_on opens sends now flows (some (key, body)) = (send_or_create opens sends key now flows).0

-- `handle_udp`
unfoldable pub handle_udp : Bool → Bool → ℕ → ParsedPacket → UdpFlows → Outcome OutOfFuel UdpFlows
unfolding udp_request send_or_create ◌>>=◌
handle_udp opens sends now packet flows = do
  request ← udp_request packet
  ok (request_on opens sends now flows request)
