-- ===== src/Router/Outgoing.antt =====
-- `handle_outgoing` of crates/proxy-core/src/router/mod.rs: what it does at once, and the task that
-- it starts to open the tunnel. What other tasks do between its locks is an argument.
use proxy_switcher.Common.{
  ℕ, zero, suc, ◌+◌, ◌%◌, ◌^◌, Bool, true, false, not, Option, none, some, List, [], ◌∷◌,
  if◌then◌else◌,
}
use proxy_switcher.Common.Outcome.{Bytes}
use proxy_switcher.Common.Text.{Text}
use proxy_switcher.Dns.Cache.{lookup}
use proxy_switcher.Packet.Build.{build_tcp_packet}
use proxy_switcher.Packet.Parse.{ParsedPacket, is_tcp_syn}
use proxy_switcher.Packet.Tcp.{TcpHeader}
use proxy_switcher.Pool.Health.{report_failure}
use proxy_switcher.Pool.Select.{active, activate_best_avoiding}
use proxy_switcher.Pool.State.{PoolInner, ProbeSchedule, insert_key}
use proxy_switcher.Pool.Types.{Floats, ProxyInfo}
use proxy_switcher.Router.State.{
  FlowKey, TcpState, tracked, track, has_key, without_key, Router, respond, show_ipv4, route_of,
}
use proxy_switcher.Routing.Policy.{Decision, proxy, direct}

-- What the task is started with: the flow, the name or address to reach, the client's first
-- number, and the proxy, or none for a direct connection.
pub record Handshake (F : Type 0) : Type 0 where
  pub key : FlowKey
  pub target : Text
  pub client_isn : ℕ
  pub route : Option (ProxyInfo F)

-- The answer that is returned, and the task that is started.
pub record Reply (F : Type 0) : Type 0 where
  pub packet : Option Bytes
  pub task : Option (Handshake F)

abbrev pub nothing : {F : Type 0} → Reply F
nothing = record { packet = none; task = none }

abbrev pub flow_of : ParsedPacket → TcpHeader → FlowKey
flow_of packet tcp = record {
  src_ip = packet.ip.source;
  src_port = tcp.source_port;
  dst_ip = packet.ip.destination;
  dst_port = tcp.destination_port;
}

abbrev pub or_shown : Option Text → Text → Text
or_shown none shown = shown
or_shown (some host) shown = host

-- A packet to the client of a flow, without a payload.
abbrev pub answer : FlowKey → ℕ → ℕ → ℕ → Bytes
answer key seq ack flags =
    build_tcp_packet key.dst_ip key.src_ip key.dst_port key.src_port seq ack flags []

-- What other tasks do to the router while `handle_outgoing` runs: between the locks of the tracker and of
-- the pending flows, and behind those, before the name is looked up and the route is decided.
pub record Between (F : Type 0) : Type 0 where
  pub untracked : Router F → Router F
  pub waiting : Router F → Router F

-- No other task runs in between.
abbrev pub alone : {F : Type 0} → Between F
alone = record { untracked = λ r. r; waiting = λ r. r }

module _ (fl : Floats) (parse_ipv6 : Text → Option ℕ) where
  open fl use {F}

  -- Behind the decision: a task, or the refusal of what no proxy can carry.
  abbrev pub start :
      Decision → Option (ProxyInfo F) → FlowKey → Text → ℕ → Router F → Router F × Reply F
  start direct route key target seq r = (
    r,
    record {
      packet = none;
      task = some (record { key = key; target = target; client_isn = seq; route = none });
    },
  )
  start proxy (some p) key target seq r = (
    r,
    record {
      packet = none;
      task = some (record { key = key; target = target; client_isn = seq; route = some p });
    },
  )
  start proxy none key target seq r = (
    respond (answer key 0 ((seq + 1) % 2 ^ 32) 0x14)
        (record r { pending = without_key r.pending key }),
    nothing,
  )

  -- A handshake of a flow that is not tracked.
  unfoldable pub begin : Between F → FlowKey → ℕ → Router F → Router F × Reply F
  unfolding lookup show_ipv4 route_of active
  begin others key seq r =
      if has_key r.pending key
      then (r, nothing)
      else (let waiting = others.waiting (record r { pending = key ∷ r.pending }) in
          let target = or_shown (lookup waiting.dns_cache key.dst_ip) (show_ipv4 key.dst_ip) in
          start (route_of parse_ipv6 waiting key.dst_ip key.dst_port (some target))
            (active fl waiting.pool) key target seq waiting)

  -- The handshake's answer is sent again where the flow is tracked.
  unfoldable pub handshake :
      Between F → FlowKey → ℕ → Option TcpState → Router F → Router F × Reply F
  unfolding begin
  handshake others key seq (some s) r = (
    r,
    record {
      packet = some (answer key s.server_isn ((s.client_isn + 1) % 2 ^ 32) 0x12);
      task = none;
    },
  )
  handshake others key seq none r = begin others key seq (others.untracked r)

  -- `handle_outgoing`, up to the task; only a TCP packet is a SYN.
  unfoldable pub outgoing :
      Between F → ParsedPacket → Option TcpHeader → Router F → Router F × Reply F
  unfolding handshake tracked
  outgoing others packet none r = (r, nothing)
  outgoing others packet (some tcp) r =
      handshake others (flow_of packet tcp) tcp.sequence_number
        (tracked r.tracker (flow_of packet tcp)) r

  unfoldable pub handle_outgoing : Between F → ParsedPacket → Router F → Router F × Reply F
  unfolding outgoing
  handle_outgoing others packet r =
      if not (is_tcp_syn packet) then (r, nothing) else outgoing others packet packet.tcp r

module _ (fl : Floats) where
  open fl use {F}

  -- What is fixed while a task runs: the schedule of the pool, its least score, and the clock.
  pub record Setting : Type 0 where
    pub schedule : ProbeSchedule
    pub min_score : F
    pub now : ℕ

  -- How the loop of the task ends, with the routes that it tried.
  pub record Attempts : Type 0 where
    pub pool : PoolInner F
    pub tried : List (Option (ProxyInfo F))
    pub connected : Bool

  abbrev pub also_tried : Option (ProxyInfo F) → Attempts → Attempts
  also_tried route a = record a { tried = route ∷ a.tried }

  abbrev pub given_up : Option (ProxyInfo F) → PoolInner F → Attempts
  given_up route pool = record { pool = pool; tried = route ∷ []; connected = false }

  -- The loop of the task: `left` further attempts are allowed, `connects` says whether the network
  -- lets a route through when so many attempts are left, and `others` is what other tasks do to the
  -- pool while the connection is tried.
  unfoldable pub attempts :
      Setting
      → (ℕ → Option (ProxyInfo F) → Bool)
      → (ℕ → PoolInner F → PoolInner F)
      → ℕ
      → Option (ProxyInfo F)
      → List Text
      → PoolInner F
      → Attempts
  unfolding report_failure activate_best_avoiding
  attempts s connects others zero route avoided pool =
      let after = others zero pool in
      record { pool = after; tried = route ∷ []; connected = connects zero route }
  attempts s connects others (suc left) none avoided pool =
      let after = others (suc left) pool in
      record { pool = after; tried = none ∷ []; connected = connects (suc left) none }
  attempts s connects others (suc left) (some failed) avoided pool =
      let after = others (suc left) pool in
      let avoid = insert_key failed.id avoided in
      let (next, replacement) =
        activate_best_avoiding fl s.min_score s.now avoid []
          (report_failure fl s.schedule s.now after failed.id) in
      elim (connects (suc left) (some failed)) [
        | true ↦ record { pool = after; tried = some failed ∷ []; connected = true }
        | false ↦ (elim replacement [
          | none ↦ given_up (some failed) next
          | some p ↦ also_tried (some failed) (attempts s connects others left (some p) avoid next)
        ])
      ]

  -- What the task does with the result: the tracked flow and the answer, or the refusal.
  abbrev pub settle : Handshake F → ℕ → Bool → Router F → Router F
  settle h server_isn true r =
      respond (answer h.key server_isn ((h.client_isn + 1) % 2 ^ 32) 0x12) (record r {
        tracker = track r.tracker h.key (record {
          client_isn = h.client_isn;
          server_isn = server_isn;
          client_next_seq = (h.client_isn + 1) % 2 ^ 32;
          server_next_seq = (server_isn + 1) % 2 ^ 32;
        });
        tunnels_opened = r.tunnels_opened + 1;
      })
  settle h server_isn false r = respond (answer h.key 0 ((h.client_isn + 1) % 2 ^ 32) 0x14) r

  -- The end of the task; `others` is what other tasks do once the flow is not pending any more, and
  -- before it is tracked.
  unfoldable pub finish : (Router F → Router F) → Handshake F → ℕ → Bool → Router F → Router F
  unfolding track
  finish others h server_isn connected r =
      settle h server_isn connected (others (record r { pending = without_key r.pending h.key }))
