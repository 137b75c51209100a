-- ===== src/Listener/Attempts.antt =====
-- Which proxies the search for a tunnel tries.
use proxy_switcher.Address.{IpAddr}
use proxy_switcher.Common.{
  ◌⊎◌, subst, ℕ, zero, suc, ◌≤◌, ◌≡◌, inl, inr, refl, sym, ap, true, false, ◌||◌, some, List, [],
  ◌∷◌, map, arith, length, Bool-cases, Option-cases, some-injective, ltb, if◌then◌else◌,
}
use proxy_switcher.Common.Member.{In, select-In}
use proxy_switcher.Connectors.Base.{Target}
use proxy_switcher.Common.Text.{Text, contains, equal, equal_iff}
use proxy_switcher.Listener.Sessions.{recently_used}
use proxy_switcher.Listener.State.{LocalProxy, host_key, record_failure}
use proxy_switcher.Listener.Tunnel.{
  Network, search_tunnel, open_tunnel, carries, with_failed, count_failure, count_rotation,
}
use proxy_switcher.Pool.Index.{Distinct}
use proxy_switcher.Pool.Maximum.{max_by-In}
use proxy_switcher.Pool.Select.{best_avoiding, by_effective_score}
use proxy_switcher.Pool.State.{PoolInner, insert_key}
use proxy_switcher.Pool.Types.{Floats, ProxyInfo}

insert_key-contains :
    (key k : Text) (ks : List Text)
    → contains (insert_key key ks) k ≡ (equal k key || contains ks k)
insert_key-contains key k ks = ground (arith, equal_iff k key)

module _ {F : Type 0} where
  -- Neither the proxy nor its server is left out.
  abbrev Fresh : List Text → ProxyInfo F → Type 0
  Fresh avoided p = (contains avoided p.id ≡ false) × (contains avoided (host_key p.host) ≡ false)

  -- No proxy is tried that was left out when its turn came.
  abbrev AllFresh : List Text → List (ProxyInfo F) → Type 0
  AllFresh avoided [] = Unit {0}
  AllFresh avoided (p ∷ ps) =
      Fresh avoided p × AllFresh (insert_key (host_key p.host) (insert_key p.id avoided)) ps

  abbrev hosts : List (ProxyInfo F) → List Text
  hosts = map (λ p. p.host)

  stays_out :
      (h : Text) (avoided : List Text) (ps : List (ProxyInfo F))
      → contains avoided (host_key h) ≡ true
      → AllFresh avoided ps
      → contains (hosts ps) h ≡ false
  stays_out h avoided [] out all = refl
  stays_out h avoided (p ∷ ps) out all =
      let by_id = insert_key-contains p.id (host_key h) avoided in
      let by_host = insert_key-contains (host_key p.host) (host_key h) (insert_key p.id avoided) in
      let rest : contains (hosts ps) h ≡ false =
        stays_out h (insert_key (host_key p.host) (insert_key p.id avoided)) ps
          (ground (arith, out, by_id, by_host)) all.1 in
      elim (Bool-cases (equal h p.host)) [
        | inl e ↦ absurd (cc (ap host_key ((equal_iff h p.host).0 e), out, all.0.1))
        | inr e ↦ rw e rest
      ]

  hosts-Distinct :
      (avoided : List Text) (ps : List (ProxyInfo F)) → AllFresh avoided ps → Distinct (hosts ps)
  hosts-Distinct avoided [] all = tt
  hosts-Distinct avoided (p ∷ ps) all =
      let known = insert_key (host_key p.host) (insert_key p.id avoided) in
      let out = insert_key-contains (host_key p.host) (host_key p.host) (insert_key p.id avoided) in
      (
        stays_out p.host known ps
            (ground (arith, out, equal_iff (host_key p.host) (host_key p.host))) all.1,
        hosts-Distinct known ps all.1,
      )

module _ (fl : Floats) where
  open fl use {F}

  replacement-Fresh :
      (pool : PoolInner F) (min_score : F) (now : ℕ) (avoided : List Text) (exits : List IpAddr)
      (p : ProxyInfo F)
      → best_avoiding fl pool min_score now avoided exits ≡ some p
      → Fresh avoided p
  unfolding best_avoiding
  replacement-Fresh pool min_score now avoided exits p e =
      let (_, t) = select-In _ pool.proxies p (max_by-In (by_effective_score fl now) _ p e) in
      ground (arith, t)

  -- What the search tries from a proxy that is not left out.
  search_tunnel-AllFresh :
      (net : Network fl) (t : Target) (exits : List IpAddr) (left : ℕ) (p : ProxyInfo F)
      (avoided : List Text) (l : LocalProxy F)
      → Fresh avoided p
      → AllFresh avoided (search_tunnel fl net t exits left p avoided l).tried
        × (length (search_tunnel fl net t exits left p avoided l).tried ≤ left)
        × ((q : ProxyInfo F)
            → (search_tunnel fl net t exits left p avoided l).carried ≡ some q
            → In q (search_tunnel fl net t exits left p avoided l).tried)
  unfolding search_tunnel
  search_tunnel-AllFresh net t exits zero p avoided l new = (tt, omega arith, λ q e. cc)
  search_tunnel-AllFresh net t exits (suc left) p avoided l new =
      let m = net.moment left in
      let failed = record_failure fl m p (count_failure fl (net.others left l)) in
      let avoid = with_failed fl p avoided in
      elim (Bool-cases (net.has_time left)) [
        | inr late ↦ rw (late, search_tunnel) (tt, omega arith, λ q e. cc)
        | inl time ↦ elim (Bool-cases (carries fl net t left p)) [
          | inl open_ ↦
              rw (time, open_, search_tunnel)
                ((new, tt), omega arith, λ q e. inl (sym (some-injective e)))
          | inr shut ↦
              elim (Option-cases (best_avoiding fl failed.pool m.min_score m.now avoid exits)) [
                | inl f ↦ rw (time, shut, f, search_tunnel) ((new, tt), omega arith, λ q e. cc)
                | inr (next, f) ↦
                    let fresh =
                      replacement-Fresh failed.pool m.min_score m.now avoid exits next f in
                    let (all, few, found) =
                      search_tunnel-AllFresh net t exits left next avoid (count_rotation fl failed)
                        fresh in
                    rw (time, shut, f, search_tunnel)
                      ((new, all), omega (arith, few), λ q e. inr (found q e))
              ]
        ]
      ]

  -- The search for a tunnel tries at most as many proxies as are allowed, one at the least, and no
  -- two on one server; the proxy that carries is one of them. This holds whatever the network
  -- answers, whenever the time is over, and whatever other tasks do to the tables in between.
  pub open_tunnel-Distinct :
      (net : Network fl) (max_attempts : ℕ) (t : Target) (p : ProxyInfo F) (l : LocalProxy F)
      → Distinct (map (λ q. q.host) (open_tunnel fl net max_attempts t p l).tried)
        × (length (open_tunnel fl net max_attempts t p l).tried
            ≤ (if ltb max_attempts 1 then 1 else max_attempts))
        × ((q : ProxyInfo F)
            → (open_tunnel fl net max_attempts t p l).carried ≡ some q
            → In q (open_tunnel fl net max_attempts t p l).tried)
  unfolding open_tunnel
  open_tunnel-Distinct net max_attempts t p l =
      let n = if ltb max_attempts 1 then 1 else max_attempts in
      let (all, few, found) =
        search_tunnel-AllFresh net t (recently_used l).1 n p [] l (refl, refl) in
      (hosts-Distinct [] _ all, few, found)

  -- What carried: in one of the attempts the forwarder opened a tunnel through the proxy to the target,
  -- or the port is 80 and a plain connection to the proxy opened.
  abbrev pub Carried : Network fl → Target → ProxyInfo F → Type 0
  Carried net t p =
      (left : ℕ) × ((net.tunnels left p t ≡ true) ⊎ ((t.port ≡ 80) × (net.forwards left p ≡ true)))

  carries-Carried :
      (net : Network fl) (t : Target) (left : ℕ) (p : ProxyInfo F)
      → carries fl net t left p ≡ true
      → Carried net t p
  carries-Carried net t left p e = elim (Bool-cases (net.tunnels left p t)) [
    | inl opened ↦ (left, inl opened)
    | inr shut ↦ (left, inr (ground (arith, e, shut)))
  ]

  search_tunnel-Carried :
      (net : Network fl) (t : Target) (exits : List IpAddr) (left : ℕ) (p q : ProxyInfo F)
      (avoided : List Text) (l : LocalProxy F)
      → (search_tunnel fl net t exits left p avoided l).carried ≡ some q
      → Carried net t q
  unfolding search_tunnel
  search_tunnel-Carried net t exits zero p q avoided l e = absurd (cc e)
  search_tunnel-Carried net t exits (suc left) p q avoided l e =
      let m = net.moment left in
      let failed = record_failure fl m p (count_failure fl (net.others left l)) in
      let avoid = with_failed fl p avoided in
      elim (Bool-cases (net.has_time left)) [
        | inr late ↦ absurd (cc (rw (late, search_tunnel) at e))
        | inl time ↦ elim (Bool-cases (carries fl net t left p)) [
          | inl opened ↦
              subst (Carried net t) (some-injective (rw (time, opened, search_tunnel) at e))
                (carries-Carried net t left p opened)
          | inr shut ↦
              elim (Option-cases (best_avoiding fl failed.pool m.min_score m.now avoid exits)) [
                | inl f ↦ absurd (cc (rw (time, shut, f, search_tunnel) at e))
                | inr (next, f) ↦
                    search_tunnel-Carried net t exits left next q avoid (count_rotation fl failed)
                      (rw (time, shut, f, search_tunnel) at e)
              ]
        ]
      ]

  pub open_tunnel-Carried :
      (net : Network fl) (max_attempts : ℕ) (t : Target) (p q : ProxyInfo F) (l : LocalProxy F)
      → (open_tunnel fl net max_attempts t p l).carried ≡ some q
      → Carried net t q
  unfolding open_tunnel
  open_tunnel-Carried net max_attempts t p q l e =
      search_tunnel-Carried net t (recently_used l).1
        (if ltb max_attempts 1 then 1 else max_attempts) p q [] l e
