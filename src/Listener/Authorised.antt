-- ===== src/Listener/Authorised.antt =====
-- Whom the local proxy serves.
use proxy_switcher.Common.{
  arith, ℕ, ◌≡◌, inl, inr, refl, sym, ap, ◌∙◌, Bool, true, false, Option, none, some, if◌then◌else◌,
  Bool-cases, Option-cases, subst,
}
use proxy_switcher.Common.Text.{Text, codes, equal}
use proxy_switcher.Listener.Request.{RequestHead, target, credentials, is_local_target}
use proxy_switcher.Listener.Serve.{
  Service, not_a_proxy_request, refused, direct, tunnelled, forwarded, ProxyPolicyRecord,
  policy_for, name_of, Served, Surroundings, handle, handle_under, carry, dropped, Forwarding,
  answers, breaks, stays_silent, cannot_write, forward_served, forward_plainly, tunnel_served,
  request_served, no_carrier, serve_tunnel, serve_request, LocalProxyConfig,
}
use proxy_switcher.Listener.Attempts.{Carried, open_tunnel-Carried}
use proxy_switcher.Listener.State.{LocalProxy, Moment}
use proxy_switcher.Listener.Tunnel.{Network, Search}
use proxy_switcher.Connectors.Base.{Target, is_plain_http}
use proxy_switcher.Credentials.Names.{session_key}
use proxy_switcher.Pool.Types.{Floats, ProxyInfo}

module _ (fl : Floats) where
  open fl use {F}

  -- What the network answers to the forwarder and to plain forwarding.
  abbrev Answers : Type 0
  Answers = Network fl × (ProxyInfo F → Forwarding fl)

  -- A plain request is forwarded: the port is 80 and the proxy answers.
  abbrev pub Forwarded : (ProxyInfo F → Forwarding fl) → Target → ProxyInfo F → Type 0
  Forwarded forwarding t p = (t.port ≡ 80) × (forwarding p ≡ answers)

  -- A service that goes through a proxy is for the target and went through, or none goes on.
  abbrev ForTarget : Answers → Target → Service F → Type 0
  ForTarget a t not_a_proxy_request = ⊥
  ForTarget a t (direct t') = ⊥
  ForTarget a t (refused status detail) = Unit {0}
  ForTarget a t dropped = Unit {0}
  ForTarget a t (tunnelled t' p) = (t' ≡ t) × Carried fl a.0 t' p
  ForTarget a t (forwarded t' p) = (t' ≡ t) × Forwarded a.1 t' p

  if-ForTarget :
      (a : Answers) (t : Target) (b : Bool) (x y : Served fl)
      → ForTarget a t x.service
      → ForTarget a t y.service
      → ForTarget a t (if b then x else y).service
  if-ForTarget a t true x y h k = h
  if-ForTarget a t false x y h k = k

  forward_served-ForTarget :
      (net : Network fl) (forwarding : ProxyInfo F → Forwarding fl) (m : Moment F) (t : Target)
      (p : ProxyInfo F) (l : LocalProxy F) (f : Forwarding fl)
      → t.port ≡ 80
      → forwarding p ≡ f
      → ForTarget (net, forwarding) t (forward_served fl m t p l f).service
  forward_served-ForTarget net forwarding m t p l answers plain e = (refl, (plain, e))
  forward_served-ForTarget net forwarding m t p l breaks plain e = tt
  forward_served-ForTarget net forwarding m t p l stays_silent plain e = tt
  forward_served-ForTarget net forwarding m t p l cannot_write plain e = tt

  forward_plainly-ForTarget :
      (net : Network fl) (forwarding : ProxyInfo F → Forwarding fl) (m : Moment F) (t : Target)
      (p : ProxyInfo F) (detail : Text) (l : LocalProxy F)
      → ForTarget (net, forwarding) t (forward_plainly fl m forwarding t p detail l).service
  forward_plainly-ForTarget net forwarding m t p detail l =
      elim (Bool-cases (is_plain_http t.port)) [
        | inl e ↦ rw e (
            forward_served-ForTarget net forwarding m t p l (forwarding p) (ground (arith, e)) refl)
        | inr e ↦ rw e tt
      ]

  tunnel_served-ForTarget :
      (net : Network fl) (forwarding : ProxyInfo F → Forwarding fl) (m : Moment F) (t : Target)
      (identity : Text) (secs : ℕ) (o : Option (ProxyInfo F)) (s : Search fl)
      → ((q : ProxyInfo F) → o ≡ some q → Carried fl net t q)
      → ForTarget (net, forwarding) t (tunnel_served fl m t identity secs o s).service
  tunnel_served-ForTarget net forwarding m t identity secs none s h = tt
  tunnel_served-ForTarget net forwarding m t identity secs (some p) s h = (refl, h p refl)

  request_served-ForTarget :
      (net : Network fl) (forwarding : ProxyInfo F → Forwarding fl) (m : Moment F) (t : Target)
      (identity : Text) (secs : ℕ) (p : ProxyInfo F) (o : Option (ProxyInfo F)) (s : Search fl)
      → ((q : ProxyInfo F) → o ≡ some q → Carried fl net t q)
      → ForTarget (net, forwarding) t (request_served fl m forwarding t identity secs p o s).service
  request_served-ForTarget net forwarding m t identity secs p none s h =
      forward_plainly-ForTarget net forwarding m t p (no_carrier fl) s.listener
  request_served-ForTarget net forwarding m t identity secs p (some q) s h = (refl, h q refl)

  serve_tunnel-ForTarget :
      (config : LocalProxyConfig) (m : Moment F) (net : Network fl)
      (forwarding : ProxyInfo F → Forwarding fl) (t : Target) (identity : Text) (secs : ℕ)
      (o : Option (ProxyInfo F)) (l : LocalProxy F)
      → ForTarget (net, forwarding) t (serve_tunnel fl config m net t identity secs o l).service
  unfolding serve_tunnel
  serve_tunnel-ForTarget config m net forwarding t identity secs none l = tt
  serve_tunnel-ForTarget config m net forwarding t identity secs (some p) l =
      tunnel_served-ForTarget net forwarding m t identity secs _ _
        (λ q. open_tunnel-Carried fl net config.max_attempts t p q l)

  serve_request-ForTarget :
      (config : LocalProxyConfig) (m : Moment F) (net : Network fl)
      (forwarding : ProxyInfo F → Forwarding fl) (t : Target) (identity : Text) (secs : ℕ)
      (o : Option (ProxyInfo F)) (l : LocalProxy F)
      → ForTarget
          (net, forwarding)
          t
          (serve_request fl config m net forwarding t identity secs o l).service
  unfolding serve_request
  serve_request-ForTarget config m net forwarding t identity secs none l = tt
  serve_request-ForTarget config m net forwarding t identity secs (some p) l =
      if-ForTarget (net, forwarding) t p.supports_tunnel _ _
        (request_served-ForTarget net forwarding m t identity secs p _ _
          (λ q. open_tunnel-Carried fl net config.max_attempts t p q l))
        (forward_plainly-ForTarget net forwarding m t p _ l)

  carry-ForTarget :
      (env : Surroundings fl) (head : RequestHead) (t : Target) (identity : Text)
      (policy : ProxyPolicyRecord F) (l : LocalProxy F)
      → ForTarget (env.network, env.forwarding) t (carry fl env head t identity policy l).service
  unfolding carry
  carry-ForTarget env head t identity policy l =
      if-ForTarget (env.network, env.forwarding) t (equal head.method (codes "CONNECT")) _ _
        (serve_tunnel-ForTarget env.config env.moment env.network env.forwarding t identity _ _ _)
        (serve_request-ForTarget env.config env.moment env.network env.forwarding t identity _ _ _)

  -- The policy that the sender of a head has.
  abbrev pub policy_of : Surroundings fl → RequestHead → Option (ProxyPolicyRecord F)
  policy_of env head =
      policy_for fl env.config env.store (name_of env.store env.peer (credentials head))
        (credentials head)

  abbrev pub HasPolicy : Surroundings fl → RequestHead → Type 0
  HasPolicy env head = (policy : ProxyPolicyRecord F) × (policy_of env head ≡ some policy)

  -- What stands behind each way to serve a request.
  abbrev pub Justified : Surroundings fl → RequestHead → Service F → Type 0
  Justified env head not_a_proxy_request = target head ≡ none
  Justified env head (refused status detail) = Unit {0}
  Justified env head dropped = Unit {0}
  Justified env head (direct t) =
      (target head ≡ some t) × (is_local_target env.parse_ipv6 t ≡ true) × HasPolicy env head
  Justified env head (tunnelled t p) =
      (target head ≡ some t)
      × (is_local_target env.parse_ipv6 t ≡ false)
      × HasPolicy env head
      × Carried fl env.network t p
  Justified env head (forwarded t p) =
      (target head ≡ some t)
      × (is_local_target env.parse_ipv6 t ≡ false)
      × HasPolicy env head
      × Forwarded env.forwarding t p

  for_target :
      (env : Surroundings fl) (head : RequestHead) (t : Target) (service : Service F)
      → target head ≡ some t
      → is_local_target env.parse_ipv6 t ≡ false
      → HasPolicy env head
      → ForTarget (env.network, env.forwarding) t service
      → Justified env head service
  for_target env head t not_a_proxy_request e f h k = absurd k
  for_target env head t (refused status detail) e f h k = tt
  for_target env head t dropped e f h k = tt
  for_target env head t (direct t') e f h k = absurd k
  for_target env head t (tunnelled t' p) e f h (k, through) = (
    e ∙ ap some (sym k),
    subst (λ x. is_local_target env.parse_ipv6 x ≡ false) (sym k) f,
    h,
    through,
  )
  for_target env head t (forwarded t' p) e f h (k, through) = (
    e ∙ ap some (sym k),
    subst (λ x. is_local_target env.parse_ipv6 x ≡ false) (sym k) f,
    h,
    through,
  )

  under-Justified :
      (env : Surroundings fl) (head : RequestHead) (t : Target) (l : LocalProxy F)
      (policy : Option (ProxyPolicyRecord F))
      → target head ≡ some t
      → policy_of env head ≡ policy
      → Justified env head
          (handle_under fl env head t
            (session_key (name_of env.store env.peer (credentials head)))
            policy
            l).service
  under-Justified env head t l none e h = tt
  under-Justified env head t l (some policy) e h =
      elim (Bool-cases (is_local_target env.parse_ipv6 t)) [
        | inl f ↦ rw f (e, f, (policy, h))
        | inr f ↦ rw f (
            for_target env head t _ e f (policy, h)
              (carry-ForTarget env head t
                (session_key (name_of env.store env.peer (credentials head))) policy l))
      ]

  -- A request is carried only for a sender that has a policy. It goes directly, to the target that its
  -- head names, only where the test for local targets holds of that target as it was read from the
  -- head, and through a proxy only where this test fails. What is reported as tunnelled went over a
  -- tunnel that the forwarder opened through the proxy to this target or, at port 80 alone, over a
  -- plain connection to the proxy; what is reported as forwarded is for port 80, and the proxy
  -- answered. This holds whatever the network answers.
  pub handle-Justified :
      (env : Surroundings fl) (head : RequestHead) (l : LocalProxy F)
      → Justified env head (handle fl env head l).service
  unfolding handle
  handle-Justified env head l = elim (Option-cases (target head)) [
    | inl e ↦ rw (e, handle) e
    | inr (t, e) ↦ rw (e, handle) (under-Justified env head t l (policy_of env head) e refl)
  ]
