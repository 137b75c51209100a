-- ===== src/Listener/Apart.antt =====
-- The sessions of crates/proxy-core/src/local_proxy.rs: a pin is kept, is held apart from the other
-- pins, and is turned over.
use proxy_switcher.Address.{IpAddr, ip_eq_iff}
use proxy_switcher.Common.{
  ◌≡◌, ◌≢◌, inl, inr, refl, sym, ap, ◌∙◌, true, false, Option, none, some, List, [], ◌∷◌, ◌++◌, map,
  arith, Bool-cases, Option-cases, some-injective, any-append,
}
use proxy_switcher.Common.Member.{In}
use proxy_switcher.Common.Table.{find, remove, find-put_self, find-remove_self}
use proxy_switcher.Common.Text.{Text, contains, equal, equal_iff}
use proxy_switcher.Credentials.Policy.{ProxyPolicy, allows}
use proxy_switcher.Listener.Allowed.{best_matching-In, allowed-allows, sticky_proxy-Allows}
use proxy_switcher.Listener.Sessions.{
  held, pin_anew, pin_choice, sticky_proxy, pinned, session_exits, or_none, exits,
}
use proxy_switcher.Listener.State.{LocalProxy, Moment, Session, session_of, is_over, host_key}
use proxy_switcher.Pool.Chosen.{place_of_record}
use proxy_switcher.Pool.Indexed.{IsIndexed, index_complete}
use proxy_switcher.Pool.Select.{best_matching, get, is_avoided, exits_by}
use proxy_switcher.Pool.State.{PoolInner}
use proxy_switcher.Pool.Types.{Floats, ProxyInfo}

head_ne : (x k : Text) (xs : List Text) → contains (x ∷ xs) k ≡ false → x ≢ k
head_ne x k xs h e = ground (arith, equal_iff k x)

-- A session on another entry of the pool, another server and another exit address.
abbrev pub Apart : {F : Type 0} → ProxyInfo F → Session → Type 0
Apart p s =
    (s.proxy_id ≢ p.id)
    × (s.host ≢ p.host)
    × ((exit : IpAddr) → p.exit_ip ≡ some exit → s.exit_ip ≢ some exit)

abbrev pub AllApart : {F : Type 0} → ProxyInfo F → List (Text × Session) → Type 0
AllApart p [] = Unit {0}
AllApart p ((k, s) ∷ sessions) = Apart p s × AllApart p sessions

exit_apart :
    (o : Option IpAddr) (others : List (Option IpAddr)) (s : Option IpAddr) (exit : IpAddr)
    → exits_by (exits (s ∷ others)) o ≡ false
    → o ≡ some exit
    → s ≢ some exit
exit_apart none others s exit h e f = cc
exit_apart (some x) others none exit h e f = cc
exit_apart (some x) others (some y) exit h e f =
    let t = (ip_eq_iff x y).1 (some-injective (e ∙ sym f)) in ground (arith, t)

exits_later :
    (o : Option IpAddr) (others : List (Option IpAddr)) (s : Option IpAddr)
    → exits_by (exits (s ∷ others)) o ≡ false
    → exits_by (exits others) o ≡ false
exits_later none others s h = refl
exits_later (some x) others none h = h
exits_later (some x) others (some y) h = ground arith

module _ {F : Type 0} where
  all_apart :
      (p : ProxyInfo F) (sessions : List (Text × Session))
      → contains (map (λ e. e.1.proxy_id) sessions) p.id ≡ false
      → contains (map (λ e. host_key e.1.host) sessions) (host_key p.host) ≡ false
      → exits_by (session_exits sessions) p.exit_ip ≡ false
      → AllApart p sessions
  all_apart p [] hi hh he = tt
  all_apart p ((k, s) ∷ sessions) hi hh he = (
    (
      head_ne s.proxy_id p.id (map (λ e. e.1.proxy_id) sessions) hi,
      λ e.
          head_ne (host_key s.host) (host_key p.host) (map (λ e. host_key e.1.host) sessions) hh
            (ap host_key e),
      λ exit e. exit_apart p.exit_ip (map (λ e. e.1.exit_ip) sessions) s.exit_ip exit he e,
    ),
    all_apart p sessions (ground arith) (ground arith)
        (exits_later p.exit_ip (map (λ e. e.1.exit_ip) sessions) s.exit_ip he),
  )

module _ (fl : Floats) where
  open fl use {F}

  pub not_avoided :
      (sessions : List (Text × Session)) (dropped : List Text) (p : ProxyInfo F)
      → is_avoided fl (pinned sessions ++ dropped) (session_exits sessions) p ≡ false
      → AllApart p sessions × (contains dropped p.id ≡ false)
  not_avoided sessions dropped p h =
      let by_id = map (λ (e : Text × Session). e.1.proxy_id) sessions in
      let by_host = map (λ (e : Text × Session). host_key e.1.host) sessions in
      let split = λ (k : Text). any-append (equal k) (by_id ++ by_host) dropped in
      let split' = λ (k : Text). any-append (equal k) by_id by_host in
      (
        all_apart p sessions (ground (arith, h, split p.id, split' p.id))
            (ground (arith, h, split (host_key p.host), split' (host_key p.host)))
            (ground (arith, h)),
        ground (arith, h, split p.id),
      )

  -- What is pinned where no pin stood: the matching proxy.
  pinned_choice :
      (m : Moment F) (identity : Text) (policy : ProxyPolicy F) (best : Option (ProxyInfo F))
      (l : LocalProxy F) (s : Session)
      → find identity l.sessions ≡ none
      → find identity (pin_choice fl m identity policy best l).0.sessions ≡ some s
      → (p : ProxyInfo F) × (best ≡ some p)
        × ((pin_choice fl m identity policy best l).1 ≡ some p)
        × (s ≡ session_of m.instant policy.sticky_secs p)
  pinned_choice m identity policy none l s unpinned e = absurd (cc (unpinned, e))
  pinned_choice m identity policy (some p) l s unpinned e =
      let new = session_of m.instant policy.sticky_secs p in
      (p, refl, refl, some-injective (sym e ∙ find-put_self identity new l.sessions))

  -- Of a client whose pin does not hold, the new pin is on the proxy that is returned, and that
  -- proxy is apart from the pins of all other clients, in the pool, and not avoided.
  abbrev pub PinnedApart :
      Moment F → Text → ProxyPolicy F → LocalProxy F → Session → ProxyInfo F → Type 0
  PinnedApart m identity policy l s p =
      ((sticky_proxy fl m identity policy l).1 ≡ some p)
      × (s ≡ session_of m.instant policy.sticky_secs p)
      × AllApart p (remove identity l.sessions)
      × (contains (or_none (find identity l.avoided)) p.id ≡ false)
      × In p l.pool.proxies

  pin_anew-PinnedApart :
      (m : Moment F) (identity : Text) (policy : ProxyPolicy F) (l : LocalProxy F) (s : Session)
      → find identity l.sessions ≡ none
      → find identity (pin_anew fl m identity policy l).0.sessions ≡ some s
      → (p : ProxyInfo F) × ((pin_anew fl m identity policy l).1 ≡ some p)
        × (s ≡ session_of m.instant policy.sticky_secs p)
        × AllApart p l.sessions
        × (contains (or_none (find identity l.avoided)) p.id ≡ false)
        × In p l.pool.proxies
  unfolding pin_anew
  pin_anew-PinnedApart m identity policy l s unpinned e =
      let dropped = or_none (find identity l.avoided) in
      let pins = pinned l.sessions ++ dropped in
      let away = session_exits l.sessions in
      let best = best_matching fl l.pool m.min_score m.now pins away policy in
      let (p, chosen, given, at_s) =
        pinned_choice m identity policy best (record l { avoided = remove identity l.avoided }) s
          unpinned e in
      let (member, new, usable, ok) =
        best_matching-In fl l.pool m.min_score m.now pins away policy p chosen in
      let (apart, fresh) = not_avoided l.sessions dropped p new in
      (p, given, at_s, apart, fresh, member)

  -- A client whose pin does not hold any more, or that has none, and that is pinned, is pinned to
  -- the proxy that it is given, and no other client is pinned to that proxy, to its server, or to
  -- its exit address; nor is it a proxy that the client was turned away from.
  pub sticky_proxy-PinnedApart :
      (m : Moment F) (identity : Text) (policy : ProxyPolicy F) (l : LocalProxy F) (s : Session)
      → held fl m policy l.pool (find identity l.sessions) ≡ none
      → find identity (sticky_proxy fl m identity policy l).0.sessions ≡ some s
      → (p : ProxyInfo F) × PinnedApart m identity policy l s p
  unfolding sticky_proxy
  sticky_proxy-PinnedApart m identity policy l s over e =
      let rest = record l { sessions = remove identity l.sessions } in
      let (p, given, at_s, apart, fresh, member) =
        pin_anew-PinnedApart m identity policy rest s (find-remove_self identity l.sessions)
          (rw (over, sticky_proxy) at e) in
      (p, (rw (over, sticky_proxy) given, at_s, apart, fresh, member))

  -- A record of the pool is found by its id.
  pub get-In :
      (pool : PoolInner F) (p : ProxyInfo F)
      → IsIndexed pool
      → In p pool.proxies
      → get fl pool p.id ≡ some p
  unfolding get
  get-In pool p v member =
      let (i, e) = place_of_record fl pool.proxies p member in
      rw (index_complete pool i p v e, get) e

  held_is_given :
      (m : Moment F) (identity : Text) (policy : ProxyPolicy F) (l : LocalProxy F) (s : Session)
      (p : ProxyInfo F)
      → find identity l.sessions ≡ some s
      → is_over m.instant s.expires_at ≡ false
      → get fl l.pool s.proxy_id ≡ some p
      → allows fl policy p ≡ true
      → sticky_proxy fl m identity policy l ≡ (l, some p)
  unfolding sticky_proxy
  held_is_given m identity policy l s p pin open_pin got ok =
      let holds : held fl m policy l.pool (find identity l.sessions) ≡ some p =
        rw (pin, open_pin, got, ok) refl in
      rw (holds, sticky_proxy) refl

  pin_choice-pool :
      (m : Moment F) (identity : Text) (policy : ProxyPolicy F) (best : Option (ProxyInfo F))
      (l : LocalProxy F)
      → (pin_choice fl m identity policy best l).0.pool ≡ l.pool
  pin_choice-pool m identity policy none l = refl
  pin_choice-pool m identity policy (some p) l = refl

  -- A choice leaves the pool alone.
  pub sticky_proxy-pool :
      (m : Moment F) (identity : Text) (policy : ProxyPolicy F) (l : LocalProxy F)
      → (sticky_proxy fl m identity policy l).0.pool ≡ l.pool
  unfolding sticky_proxy pin_anew
  sticky_proxy-pool m identity policy l =
      elim (Option-cases (held fl m policy l.pool (find identity l.sessions))) [
        | inl over ↦ rw (over, sticky_proxy) (pin_choice-pool m identity policy _ _)
        | inr (q, holds) ↦ rw (holds, sticky_proxy) refl
      ]

  held-get :
      (m : Moment F) (policy : ProxyPolicy F) (pool : PoolInner F) (s : Session) (p : ProxyInfo F)
      → held fl m policy pool (some s) ≡ some p
      → get fl pool s.proxy_id ≡ some p
  held-get m policy pool s p e = elim (Bool-cases (is_over m.instant s.expires_at)) [
    | inl t ↦ absurd (cc (rw t at e))
    | inr f ↦ (allowed-allows fl policy (get fl pool s.proxy_id) p (rw f at e)).1
  ]

  -- The pool still has the proxy of a pin.
  pinned_is_known :
      (m : Moment F) (identity : Text) (policy : ProxyPolicy F) (l : LocalProxy F) (s : Session)
      (p : ProxyInfo F)
      → IsIndexed l.pool
      → (sticky_proxy fl m identity policy l).1 ≡ some p
      → find identity (sticky_proxy fl m identity policy l).0.sessions ≡ some s
      → get fl l.pool s.proxy_id ≡ some p
  unfolding sticky_proxy
  pinned_is_known m identity policy l s p v given pin =
      elim (Option-cases (held fl m policy l.pool (find identity l.sessions))) [
        | inl over ↦
            let (q, facts) = sticky_proxy-PinnedApart m identity policy l s over pin in
            let same : q ≡ p = some-injective (sym facts.0 ∙ given) in
            let known = get-In l.pool q v facts.4 in
            rw (ap (λ t. t.proxy_id) facts.1) (known ∙ ap some same)
        | inr (q, holds) ↦
            let at_s : find identity l.sessions ≡ some s = rw (holds, sticky_proxy) at pin in
            let same : q ≡ p = some-injective (rw (holds, sticky_proxy) at given) in
            held-get m policy l.pool s p (rw at_s at holds ∙ ap some same)
      ]

  -- A client that is pinned keeps its proxy: for as long as the pin has not run out, a second call
  -- gives the proxy of the first one and changes nothing.
  pub sticky_proxy_again :
      (m later : Moment F) (identity : Text) (policy : ProxyPolicy F) (l : LocalProxy F)
      (s : Session) (p : ProxyInfo F)
      → IsIndexed l.pool
      → (sticky_proxy fl m identity policy l).1 ≡ some p
      → find identity (sticky_proxy fl m identity policy l).0.sessions ≡ some s
      → is_over later.instant s.expires_at ≡ false
      → sticky_proxy fl later identity policy (sticky_proxy fl m identity policy l).0
        ≡ ((sticky_proxy fl m identity policy l).0, some p)
  sticky_proxy_again m later identity policy l s p v given pin open_pin =
      let after = (sticky_proxy fl m identity policy l).0 in
      let known = pinned_is_known m identity policy l s p v given pin in
      held_is_given later identity policy after s p pin open_pin
        (rw (sticky_proxy-pool m identity policy l) known)
        (sticky_proxy-Allows fl m identity policy l p given)
