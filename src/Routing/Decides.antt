-- ===== src/Routing/Decides.antt =====
-- When a destination goes through a proxy.
use proxy_switcher.Address.{IpAddr, IsIpAddr, ip_eq_iff}
use proxy_switcher.Common.{
  ℕ, ◌<◌, ◌^◌, ◌≡◌, ◌≢◌, ◌↔◌, ◌⊎◌, inl, inr, refl, sym, ap, subst, ◌∙◌, Bool, true, false, not,
  ◌&&◌, ◌||◌, Option, none, some, List, [], ◌∷◌, if◌then◌else◌, is_empty, any, Bool-cases,
}
use proxy_switcher.Common.Text.{Text, trim, split_once, parse_uint}
use proxy_switcher.Routing.Cidr.{
  range_matches, address_matches, parse_ip_addr, rule_matches, matches_cidr,
}
use proxy_switcher.Routing.Domain.{normal_host}
use proxy_switcher.Routing.Local.{is_local}
use proxy_switcher.Routing.Policy.{
  RouteMode, no_routes, allow_list, deny_list, proxy, RoutePolicy, has_port, by_mode, any_domain,
  matches_any, policy_matches_domain, decide,
}
use proxy_switcher.Routing.Parsed.{parse_ip_addr-IsIpAddr}
use proxy_switcher.Routing.Prefix.{InRange, network_matches_iff}
use proxy_switcher.Routing.Subdomain.{CoversHost, matches_domain_iff}

-- Some entry of the list has the property.
abbrev pub Some : (Text → Type 0) → List Text → Type 0
Some P [] = ⊥
Some P (x ∷ xs) = P x ⊎ Some P xs

any_iff :
    (p : Text → Bool) (P : Text → Type 0)
    → ((x : Text) → (p x ≡ true) ↔ P x)
    → (xs : List Text) → (any p xs ≡ true) ↔ Some P xs
any_iff p P h [] = (λ e. cc, λ e. absurd e)
any_iff p P h (x ∷ xs) =
    let ih = any_iff p P h xs in
    elim (Bool-cases (p x)) [
      | inl e ↦ rw e (λ _. inl ((h x).0 e), λ _. refl)
      | inr e ↦ rw e (λ q. inr (ih.0 q), elim [ inl q ↦ cc (sym e ∙ (h x).1 q) | inr q ↦ ih.1 q ])
    ]

or_iff :
    {P Q : Type 0} (a b : Bool) → ((a ≡ true) ↔ P) → ((b ≡ true) ↔ Q) → ((a || b) ≡ true) ↔ (P ⊎ Q)
or_iff true b p q = (λ _. inl (p.0 refl), λ _. refl)
or_iff false b p q = (λ e. inr (q.0 e), elim [ inl e ↦ cc (p.1 e) | inr e ↦ q.1 e ])

-- The test on the ports, and its two outcomes.
port_test :
    (ports : List ℕ) (port : ℕ)
    → ((not (is_empty ports) && not (has_port ports port)) ≡ false
        → (ports ≡ []) ⊎ (has_port ports port ≡ true))
      × ((not (is_empty ports) && not (has_port ports port)) ≡ true
          → ¬ ((ports ≡ []) ⊎ (has_port ports port ≡ true)))
port_test [] port = (λ _. inl refl, λ e. cc)
port_test (x ∷ xs) port = elim (Bool-cases (has_port (x ∷ xs) port)) [
  | inl h ↦ rw h (λ _. inr refl, λ e. cc)
  | inr h ↦ rw h (λ e. cc, λ _. elim [ inl q ↦ cc | inr q ↦ cc ])
]

module _ (parse_ipv6 : Text → Option ℕ)
    (ipv6_bits : (t : Text) (n : ℕ) → parse_ipv6 t ≡ some n → n < 2 ^ 128) (ip : IpAddr)
    (machine : IsIpAddr ip) where
  -- What a rule of addresses says: the address itself, or a range that holds it. A rule that does
  -- not read as either says nothing.
  abbrev pub RangeHolds : Option IpAddr → Option ℕ → Type 0
  RangeHolds (some net) (some prefix) = InRange net prefix ip
  RangeHolds _ _ = ⊥

  abbrev pub SplitRuleHolds : Text → Option (Text × Text) → Type 0
  SplitRuleHolds rule (some (network, prefix)) =
      RangeHolds (parse_ip_addr parse_ipv6 network) (parse_uint 255 prefix)
  SplitRuleHolds rule none = parse_ip_addr parse_ipv6 rule ≡ some ip

  abbrev pub RuleHolds : Text → Type 0
  RuleHolds rule = (trim rule ≢ []) × SplitRuleHolds (trim rule) (split_once b'/' (trim rule))

  range_iff :
      (r : Option IpAddr) (p : Option ℕ)
      → ((net : IpAddr) → r ≡ some net → IsIpAddr net)
      → (range_matches r p ip ≡ true) ↔ RangeHolds r p
  range_iff (some net) (some prefix) h = network_matches_iff net prefix ip (h net refl) machine
  range_iff (some net) none h = (λ e. cc, λ e. absurd e)
  range_iff none (some prefix) h = (λ e. cc, λ e. absurd e)
  range_iff none none h = (λ e. cc, λ e. absurd e)

  address_iff : (r : Option IpAddr) → (address_matches r ip ≡ true) ↔ (r ≡ some ip)
  address_iff none = (λ e. cc, λ e. cc)
  address_iff (some r) = (λ e. ap some ((ip_eq_iff r ip).0 e), λ e. (ip_eq_iff r ip).1 cc)

  split_rule_iff :
      (rule : Text) (s : Option (Text × Text))
      → (rule_matches parse_ipv6 rule s ip ≡ true) ↔ SplitRuleHolds rule s
  split_rule_iff rule (some (network, prefix)) =
      range_iff _ _ (parse_ip_addr-IsIpAddr parse_ipv6 ipv6_bits network)
  split_rule_iff rule none = address_iff _

  rule_iff :
      (rule : Text)
      → ((if is_empty rule then false else rule_matches parse_ipv6 rule (split_once b'/' rule) ip)
          ≡ true)
        ↔ (rule ≢ []) × SplitRuleHolds rule (split_once b'/' rule)
  rule_iff [] = (λ e. cc, λ e. absurd (e.0 refl))
  rule_iff (c ∷ s) =
      let iff = split_rule_iff (c ∷ s) (split_once b'/' (c ∷ s)) in
      (λ e. ((λ q. cc), iff.0 e), λ e. iff.1 e.1)

  matches_cidr_iff : (rule : Text) → (matches_cidr parse_ipv6 rule ip ≡ true) ↔ RuleHolds rule
  unfolding matches_cidr
  matches_cidr_iff rule = rule_iff (trim rule)

  module _ (p : RoutePolicy) (port : ℕ) (hostname : Option Text) where
    -- The rules of addresses apply to every port, or to the ports that are named.
    abbrev pub PortNamed : Type 0
    PortNamed = (p.ports ≡ []) ⊎ (has_port p.ports port ≡ true)

    abbrev pub Addressed : List Text → Type 0
    Addressed rules = PortNamed × Some RuleHolds rules

    abbrev pub NamedBy : Option Text → Type 0
    NamedBy none = ⊥
    NamedBy (some host) = Some (λ rule. CoversHost (trim rule) (normal_host host)) p.domains

    abbrev pub Covered : Type 0
    Covered = Addressed p.cidrs ⊎ NamedBy hostname

    abbrev pub ByMode : RouteMode → Type 0
    ByMode no_routes = ⊥
    ByMode allow_list = Covered
    ByMode deny_list = ¬ Covered

    matches_any_iff :
        (rules : List Text) → (matches_any parse_ipv6 p ip port rules ≡ true) ↔ Addressed rules
    unfolding matches_any
    matches_any_iff rules =
        let rules_iff =
          any_iff (λ rule. matches_cidr parse_ipv6 rule ip) RuleHolds matches_cidr_iff rules in
        let ports = port_test p.ports port in
        elim (Bool-cases (not (is_empty p.ports) && not (has_port p.ports port))) [
          | inl unnamed ↦ rw unnamed (λ e. cc, λ e. absurd (ports.1 unnamed e.0))
          | inr named ↦ rw named (λ e. (ports.0 named, rules_iff.0 e), λ e. rules_iff.1 e.1)
        ]

    any_domain-NamedBy : (host : Option Text) → (any_domain p.domains host ≡ true) ↔ NamedBy host
    any_domain-NamedBy none = (λ e. cc, λ e. absurd e)
    any_domain-NamedBy (some host) = any_iff _ _ (λ rule. matches_domain_iff rule host) p.domains

    covered_iff :
        ((matches_any parse_ipv6 p ip port p.cidrs || policy_matches_domain p hostname) ≡ true)
        ↔ Covered
    unfolding policy_matches_domain
    covered_iff = or_iff _ _ (matches_any_iff p.cidrs) (any_domain-NamedBy hostname)

    by_mode_iff :
        (m : RouteMode) (matched : Bool)
        → ((matched ≡ true) ↔ Covered)
        → (by_mode m matched ≡ proxy) ↔ ByMode m
    by_mode_iff no_routes matched c = (λ e. cc, λ e. absurd e)
    by_mode_iff allow_list true c = (λ _. c.0 refl, λ _. refl)
    by_mode_iff allow_list false c = (λ e. cc, λ e. cc (c.1 e))
    by_mode_iff deny_list true c = (λ e. cc, λ e. absurd (e (c.0 refl)))
    by_mode_iff deny_list false c = (λ _ q. cc (c.1 q), λ _. refl)

    -- A destination goes through the proxy exactly if it is not local, no exemption holds for it,
    -- and the mode's own condition does: in an allow list that a rule covers it, in a deny list
    -- that none does. A rule of addresses holds for the addresses that it names, at the ports of
    -- the policy; a rule of names for the hosts that it covers, at every port.
    pub decide_iff :
        (decide parse_ipv6 p ip port hostname ≡ proxy)
        ↔ (is_local ip ≡ false) × (¬ Addressed p.always_direct) × ByMode p.mode
    unfolding decide
    decide_iff =
        let exempt = matches_any_iff p.always_direct in
        let mode = by_mode_iff p.mode _ covered_iff in
        elim (Bool-cases (is_local ip)) [
          | inl local ↦ rw local (λ e. cc, λ e. cc e.0)
          | inr outward ↦
              rw outward (elim (Bool-cases (matches_any parse_ipv6 p ip port p.always_direct)) [
                | inl exempted ↦ rw exempted (λ e. cc, λ e. absurd (e.1 (exempt.0 exempted)))
                | inr other ↦
                    rw other
                      (λ e. (refl, (λ q. cc (sym other ∙ exempt.1 q)), mode.0 e), λ e. mode.1 e.2)
              ])
        ]

    -- An exemption does not reach beyond the ports of the policy: with a deny list that names
    -- ports, every destination that is not local goes through the proxy at any other port, also
    -- one that `always_direct` lists, unless a rule of names covers its host.
    pub exemption_needs_port :
        p.mode ≡ deny_list
        → is_local ip ≡ false
        → ¬ PortNamed
        → ¬ NamedBy hostname
        → decide parse_ipv6 p ip port hostname ≡ proxy
    exemption_needs_port m outward elsewhere unnamed = decide_iff.1 (
      outward,
      (λ e. elsewhere e.0),
      subst ByMode (sym m) (elim [ inl e ↦ elsewhere e.0 | inr e ↦ unnamed e ]),
    )
