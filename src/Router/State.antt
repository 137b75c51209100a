-- ===== src/Router/State.antt =====
-- The state of `Router`, and its connection tracker: crates/proxy-core/src/router/mod.rs and
-- crates/proxy-core/src/router/connection.rs. The tracker's map is a list of its entries; of a
-- tracked connection the state of its numbers is kept.
use proxy_switcher.Address.{Ipv4Addr, ipv4_eq, v4}
use proxy_switcher.Common.{
  ℕ, ◌+◌, ◌/◌, ◌%◌, Bool, not, ◌&&◌, Option, none, some, List, [], ◌∷◌, ◌++◌, if◌then◌else◌, leb,
  ◌==◌, any, select,
}
use proxy_switcher.Common.Outcome.{Bytes}
use proxy_switcher.Common.Text.{Text}
use proxy_switcher.Dns.Cache.{Cache}
use proxy_switcher.Pool.State.{PoolInner}
use proxy_switcher.Routing.Local.{is_local}
use proxy_switcher.Routing.Policy.{
  RoutePolicy, Decision, proxy, direct, matches_always_direct, decide,
}

pub record FlowKey : Type 0 where
  pub src_ip : Ipv4Addr
  pub src_port : ℕ
  pub dst_ip : Ipv4Addr
  pub dst_port : ℕ

abbrev pub key_eq : FlowKey → FlowKey → Bool
key_eq k l =
    ipv4_eq k.src_ip l.src_ip
    && k.src_port == l.src_port
    && ipv4_eq k.dst_ip l.dst_ip
    && k.dst_port == l.dst_port

pub record TcpState : Type 0 where
  pub client_isn : ℕ
  pub server_isn : ℕ
  pub client_next_seq : ℕ
  pub server_next_seq : ℕ

-- `ConnectionTracker`
abbrev pub Tracker : Type 0
Tracker = List (FlowKey × TcpState)

unfoldable pub tracked : Tracker → FlowKey → Option TcpState
tracked [] key = none
tracked ((k, s) ∷ t) key = if key_eq k key then some s else tracked t key

unfoldable pub untrack : Tracker → FlowKey → Tracker
untrack [] key = []
untrack ((k, s) ∷ t) key = if key_eq k key then untrack t key else (k, s) ∷ untrack t key

unfoldable pub track : Tracker → FlowKey → TcpState → Tracker
unfolding untrack
track t key s = (key, s) ∷ untrack t key

-- The keys that are in a set, and a set without one.
abbrev pub has_key : List FlowKey → FlowKey → Bool
has_key keys key = any (key_eq key) keys

abbrev pub without_key : List FlowKey → FlowKey → List FlowKey
without_key keys key = select (λ k. not (key_eq key k)) keys

-- `Router`; `sent` are the packets handed to the responder, the newest last.
pub record Router (F : Type 0) : Type 0 where
  pub tracker : Tracker
  pub pending : List FlowKey
  pub routed : List Ipv4Addr
  pub dns_cache : Cache
  pub policy : RoutePolicy
  pub pool : PoolInner F
  pub sent : List Bytes
  pub tunnels_opened : ℕ
  pub bytes_out : ℕ
  pub bytes_in : ℕ

module _ {F : Type 0} where
  -- `respond`
  abbrev pub respond : Bytes → Router F → Router F
  respond packet r = record r { sent = r.sent ++ packet ∷ [] }

  -- `set_routed_destinations`
  abbrev pub set_routed_destinations : List Ipv4Addr → Router F → Router F
  set_routed_destinations addresses r = record r { routed = addresses }

-- `Ipv4Addr::to_string`
abbrev pub show_octet : ℕ → Text
show_octet n =
    (if leb 100 n then (b'0' + n / 100) ∷ [] else [])
    ++ (if leb 10 n then (b'0' + n / 10 % 10) ∷ [] else [])
    ++ (b'0' + n % 10) ∷ []

unfoldable pub show_ipv4 : Ipv4Addr → Text
show_ipv4 ip =
    show_octet ip.a ++ b'.' ∷ show_octet ip.b ++ b'.' ∷ show_octet ip.c ++ b'.' ∷ show_octet ip.d

module _ (parse_ipv6 : Text → Option ℕ) where
  -- `Router::decide`
  unfoldable pub route_of : {F : Type 0} → Router F → Ipv4Addr → ℕ → Option Text → Decision
  unfolding matches_always_direct decide
  route_of r ip port hostname =
      if is_local (v4 ip)
      then direct
      else if matches_always_direct parse_ipv6 r.policy (v4 ip) port
      then direct
      else if any (ipv4_eq ip) r.routed
      then proxy
      else decide parse_ipv6 r.policy (v4 ip) port hostname
