-- ===== src/Router/Guarded.antt =====
-- What `handle_outgoing` does at once, and what it never does.
use proxy_switcher.Common.{
  ℕ, ◌≡◌, inl, inr, ◌⊎◌, refl, sym, ap, subst, true, false, not, Option, none, some, ◌∷◌, arith,
  Bool-cases,
}
use proxy_switcher.Address.{ipv4_eq_iff}
use proxy_switcher.Common.Text.{Text}
use proxy_switcher.Dns.Cache.{lookup}
use proxy_switcher.Packet.Parse.{ParsedPacket, is_tcp_syn}
use proxy_switcher.Packet.Tcp.{TcpHeader}
use proxy_switcher.Pool.Select.{active}
use proxy_switcher.Pool.Types.{Floats, ProxyInfo}
use proxy_switcher.Router.Outgoing.{
  Between, Handshake, flow_of, or_shown, start, begin, handshake, outgoing, handle_outgoing,
}
use proxy_switcher.Router.State.{
  FlowKey, key_eq, TcpState, tracked, has_key, Router, show_ipv4, route_of,
}
use proxy_switcher.Routing.Policy.{Decision, proxy, direct}

key_eq_refl : (k : FlowKey) → key_eq k k ≡ true
key_eq_refl k = ground (arith, ipv4_eq_iff k.src_ip k.src_ip, ipv4_eq_iff k.dst_ip k.dst_ip)

some_is : {A : Type 0} {a b : A} → some a ≡ some b → a ≡ b
some_is e = cc

module _ (fl : Floats) (parse_ipv6 : Text → Option ℕ) where
  open fl use {F}

  -- The flow of a packet that is decided on, with the name that the cache knows.
  abbrev target_of : Router F → FlowKey → Text
  target_of r key = or_shown (lookup r.dns_cache key.dst_ip) (show_ipv4 key.dst_ip)

  abbrev decided : Router F → FlowKey → Decision
  decided r key = route_of parse_ipv6 r key.dst_ip key.dst_port (some (target_of r key))

  -- A task's route is as decided: direct where the decision is, and otherwise the active proxy.
  abbrev pub AsDecided : Decision → Option (ProxyInfo F) → Option (ProxyInfo F) → Type 0
  AsDecided d active_proxy route =
      ((d ≡ direct) × (route ≡ none))
      ⊎ ((p : ProxyInfo F) × (d ≡ proxy) × (active_proxy ≡ some p) × (route ≡ some p))

  -- The router when the route is decided: the flow has joined the pending ones.
  abbrev pub deciding : Between F → FlowKey → Router F → Router F
  deciding others key r = others.waiting (record r { pending = key ∷ r.pending })

  -- What holds of a router that starts a task for a flow by a route.
  abbrev pub Starts : Between F → Router F → FlowKey → Option (ProxyInfo F) → Type 0
  Starts others r key route =
      (tracked r.tracker key ≡ none)
      × (has_key (others.untracked r).pending key ≡ false)
      × AsDecided (decided (deciding others key (others.untracked r)) key)
          (active fl (deciding others key (others.untracked r)).pool) route

  start-AsDecided :
      (d : Decision) (active_proxy : Option (ProxyInfo F)) (key : FlowKey) (target : Text) (seq : ℕ)
      (r : Router F) (h : Handshake F)
      → (start fl parse_ipv6 d active_proxy key target seq r).1.task ≡ some h
      → (h.key ≡ key) × AsDecided d active_proxy h.route
  start-AsDecided direct route key target seq r h e =
      let same = some_is e in (sym (ap (λ x. x.key) same), inl (refl, sym (ap (λ x. x.route) same)))
  start-AsDecided proxy (some p) key target seq r h e =
      let same = some_is e in
      (sym (ap (λ x. x.key) same), inr (p, refl, refl, sym (ap (λ x. x.route) same)))
  start-AsDecided proxy none key target seq r h e = cc

  begin-AsDecided :
      (others : Between F) (key : FlowKey) (seq : ℕ) (r : Router F) (h : Handshake F)
      → (begin fl parse_ipv6 others key seq r).1.task ≡ some h
      → (h.key ≡ key)
        × (has_key r.pending key ≡ false)
        × AsDecided
            (decided (deciding others key r) key)
            (active fl (deciding others key r).pool)
            h.route
  unfolding begin
  begin-AsDecided others key seq r h e = elim (Bool-cases (has_key r.pending key)) [
    | inl t ↦ absurd (cc (rw t at e))
    | inr f ↦
        let (same, way) =
          start-AsDecided _ (active fl (deciding others key r).pool) key
            (target_of (deciding others key r) key) seq _ h (rw f at e) in
        (same, f, way)
  ]

  handshake-Starts :
      (others : Between F) (key : FlowKey) (seq : ℕ) (s : Option TcpState) (r : Router F)
      (h : Handshake F)
      → tracked r.tracker key ≡ s
      → (handshake fl parse_ipv6 others key seq s r).1.task ≡ some h
      → Starts others r h.key h.route
  unfolding handshake
  handshake-Starts others key seq none r h new e =
      let (same, free, way) = begin-AsDecided others key seq (others.untracked r) h e in
      subst (λ k. Starts others r k h.route) (sym same) (new, free, way)
  handshake-Starts others key seq (some s) r h known e = cc

  outgoing-Starts :
      (others : Between F) (packet : ParsedPacket) (tcp : Option TcpHeader) (r : Router F)
      (h : Handshake F)
      → (outgoing fl parse_ipv6 others packet tcp r).1.task ≡ some h
      → Starts others r h.key h.route
  unfolding outgoing
  outgoing-Starts others packet none r h e = cc
  outgoing-Starts others packet (some tcp) r h e =
      handshake-Starts others (flow_of packet tcp) tcp.sequence_number _ r h refl e

  -- A task is started only for a flow that is not tracked, and that is not waiting for a tunnel already
  -- when it is about to join the waiting ones. It goes out directly only where the routing decision
  -- for the flow, by the name that the cache knows for the address at that time, is to go direct; where
  -- the decision is a proxy, it goes through the active one. This holds whatever other tasks do to the
  -- router between the two tests and in front of the decision.
  pub handle_outgoing-Starts :
      (others : Between F) (packet : ParsedPacket) (r : Router F) (h : Handshake F)
      → (handle_outgoing fl parse_ipv6 others packet r).1.task ≡ some h
      → Starts others r h.key h.route
  unfolding handle_outgoing
  handle_outgoing-Starts others packet r h e = elim (Bool-cases (not (is_tcp_syn packet))) [
    | inl t ↦ absurd (cc (rw t at e))
    | inr f ↦ outgoing-Starts others packet packet.tcp r h (rw f at e)
  ]
