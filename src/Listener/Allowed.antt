-- ===== src/Listener/Allowed.antt =====
-- What the choices of the local proxy have in common.
use proxy_switcher.Common.{
  ℕ, ◌≡◌, inl, inr, ◌∙◌, true, false, Option, none, some, List, ◌++◌, arith, Bool-cases,
  Option-cases, some-injective, subst, ltb,
}
use proxy_switcher.Common.Member.{In, select-In}
use proxy_switcher.Common.Text.{Text}
use proxy_switcher.Address.{IpAddr}
use proxy_switcher.Credentials.Policy.{
  ProxyPolicy, Rotation, by_time, per_request, sticky, allows, or_empty,
}
use proxy_switcher.Common.Table.{find, remove}
use proxy_switcher.Listener.Sessions.{
  allowed, held, in_front, pin_anew, pin_choice, sticky_proxy, slot_choice, replace_in_front,
  timed_proxy, request_choice, per_request_proxy, proxy_for, recently_used, pinned, session_exits,
  or_none, proxy_by,
}
use proxy_switcher.Listener.State.{LocalProxy, Moment, Session, Slot, is_over}
use proxy_switcher.Pool.Maximum.{max_by-In}
use proxy_switcher.Pool.Select.{
  active, get, best_matching, by_effective_score, is_avoided, is_usable,
}
use proxy_switcher.Pool.State.{PoolInner}
use proxy_switcher.Pool.Types.{Floats, ProxyInfo}

module _ (fl : Floats) where
  open fl use {F}

  pub allowed-allows :
      (policy : ProxyPolicy F) (o : Option (ProxyInfo F)) (p : ProxyInfo F)
      → allowed fl policy o ≡ some p
      → (allows fl policy p ≡ true) × (o ≡ some p)
  allowed-allows policy none p e = cc
  allowed-allows policy (some q) p e = elim (Bool-cases (allows fl policy q)) [
    | inl t ↦
        let same : some q ≡ some p = rw t at e in
        (subst (λ x. allows fl policy x ≡ true) (some-injective same) t, same)
    | inr f ↦ absurd (cc (rw f at e))
  ]

  -- A matching proxy is in the pool, is not avoided, works, and the policy allows it.
  pub best_matching-In :
      (pool : PoolInner F) (min_score : F) (now : ℕ) (avoid : List Text) (exits : List IpAddr)
      (policy : ProxyPolicy F) (p : ProxyInfo F)
      → best_matching fl pool min_score now avoid exits policy ≡ some p
      → In p pool.proxies
        × (is_avoided fl avoid exits p ≡ false)
        × (is_usable fl min_score p ≡ true)
        × (allows fl policy p ≡ true)
  unfolding best_matching
  best_matching-In pool min_score now avoid exits policy p e =
      let (m, t) = select-In _ pool.proxies p (max_by-In (by_effective_score fl now) _ p e) in
      (m, ground (arith, t), ground (arith, t), ground (arith, t))

  -- Whichever choice it is, a matching proxy or the active one, the policy allows it.
  abbrev pub Allows : ProxyPolicy F → Option (ProxyInfo F) → Type 0
  Allows policy best = (q : ProxyInfo F) → best ≡ some q → allows fl policy q ≡ true

  pin_choice-Allows :
      (m : Moment F) (identity : Text) (policy : ProxyPolicy F) (best : Option (ProxyInfo F))
      (l : LocalProxy F)
      → Allows policy best
      → Allows policy (pin_choice fl m identity policy best l).1
  pin_choice-Allows m identity policy none l h p e =
      (allowed-allows policy (active fl l.pool) p e).0
  pin_choice-Allows m identity policy (some q) l h p e = h p e

  slot_choice-Allows :
      (m : Moment F) (name : Text) (policy : ProxyPolicy F) (best : Option (ProxyInfo F))
      (l : LocalProxy F)
      → Allows policy best
      → Allows policy (slot_choice fl m name policy best l).1
  slot_choice-Allows m name policy none l h p e = (allowed-allows policy (active fl l.pool) p e).0
  slot_choice-Allows m name policy (some q) l h p e = h p e

  request_choice-Allows :
      (policy : ProxyPolicy F) (best : Option (ProxyInfo F)) (l : LocalProxy F)
      → Allows policy best
      → Allows policy (request_choice fl policy best l).1
  request_choice-Allows policy none l h p e = (allowed-allows policy (active fl l.pool) p e).0
  request_choice-Allows policy (some q) l h p e = h p e

  best_matching-Allows :
      (pool : PoolInner F) (min_score : F) (now : ℕ) (avoid : List Text) (exits : List IpAddr)
      (policy : ProxyPolicy F)
      → Allows policy (best_matching fl pool min_score now avoid exits policy)
  best_matching-Allows pool min_score now avoid exits policy q e =
      (best_matching-In pool min_score now avoid exits policy q e).3

  pub held-allows :
      (m : Moment F) (policy : ProxyPolicy F) (pool : PoolInner F) (s : Option Session)
      (p : ProxyInfo F)
      → held fl m policy pool s ≡ some p
      → allows fl policy p ≡ true
  held-allows m policy pool none p e = cc
  held-allows m policy pool (some s) p e = elim (Bool-cases (is_over m.instant s.expires_at)) [
    | inl t ↦ absurd (cc (rw t at e))
    | inr f ↦ (allowed-allows policy (get fl pool s.proxy_id) p (rw f at e)).0
  ]

  in_front-allows :
      (m : Moment F) (policy : ProxyPolicy F) (pool : PoolInner F) (s : Option Slot)
      (p : ProxyInfo F)
      → in_front fl m policy pool s ≡ some p
      → allows fl policy p ≡ true
  in_front-allows m policy pool none p e = cc
  in_front-allows m policy pool (some s) p e = elim (Bool-cases (ltb m.instant s.changes_at)) [
    | inl t ↦ (allowed-allows policy (get fl pool (or_empty s.proxy_id)) p (rw t at e)).0
    | inr f ↦ absurd (cc (rw f at e))
  ]

  pin_anew-Allows :
      (m : Moment F) (identity : Text) (policy : ProxyPolicy F) (l : LocalProxy F)
      → Allows policy (pin_anew fl m identity policy l).1
  unfolding pin_anew
  pin_anew-Allows m identity policy l =
      let pins = pinned l.sessions ++ or_none (find identity l.avoided) in
      let away = session_exits l.sessions in
      pin_choice-Allows m identity policy
        (best_matching fl l.pool m.min_score m.now pins away policy)
        (record l { avoided = remove identity l.avoided })
        (best_matching-Allows l.pool m.min_score m.now pins away policy)

  replace_in_front-Allows :
      (m : Moment F) (name : Text) (policy : ProxyPolicy F) (l : LocalProxy F)
      → Allows policy (replace_in_front fl m name policy l).1
  unfolding replace_in_front
  replace_in_front-Allows m name policy l =
      let used = (recently_used l).0 ++ or_none (find name l.avoided) in
      let away = (recently_used l).1 in
      slot_choice-Allows m name policy (best_matching fl l.pool m.min_score m.now used away policy)
        (record l { avoided = remove name l.avoided })
        (best_matching-Allows l.pool m.min_score m.now used away policy)

  pub sticky_proxy-Allows :
      (m : Moment F) (identity : Text) (policy : ProxyPolicy F) (l : LocalProxy F)
      → Allows policy (sticky_proxy fl m identity policy l).1
  unfolding sticky_proxy
  sticky_proxy-Allows m identity policy l p e =
      let s = find identity l.sessions in
      elim (Option-cases (held fl m policy l.pool s)) [
        | inl f ↦
            pin_anew-Allows m identity policy (record l { sessions = remove identity l.sessions }) p
              (rw (f, sticky_proxy) at e)
        | inr (q, f) ↦ held-allows m policy l.pool s p (f ∙ (rw (f, sticky_proxy) at e))
      ]

  timed_proxy-Allows :
      (m : Moment F) (name : Text) (policy : ProxyPolicy F) (l : LocalProxy F)
      → Allows policy (timed_proxy fl m name policy l).1
  unfolding timed_proxy
  timed_proxy-Allows m name policy l p e =
      let s = find name l.slots in
      elim (Option-cases (in_front fl m policy l.pool s)) [
        | inl f ↦ replace_in_front-Allows m name policy l p (rw (f, timed_proxy) at e)
        | inr (q, f) ↦ in_front-allows m policy l.pool s p (f ∙ (rw (f, timed_proxy) at e))
      ]

  per_request_proxy-Allows :
      (m : Moment F) (policy : ProxyPolicy F) (l : LocalProxy F)
      → Allows policy (per_request_proxy fl m policy l).1
  unfolding per_request_proxy
  per_request_proxy-Allows m policy l =
      let (used, away) = recently_used l in
      request_choice-Allows policy (best_matching fl l.pool m.min_score m.now used away policy) l
        (best_matching-Allows l.pool m.min_score m.now used away policy)

  proxy_by-Allows :
      (rotation : Rotation) (m : Moment F) (identity name : Text) (policy : ProxyPolicy F)
      (l : LocalProxy F)
      → Allows policy (proxy_by fl rotation m identity name policy l).1
  proxy_by-Allows sticky m identity name policy l = sticky_proxy-Allows m identity policy l
  proxy_by-Allows by_time m identity name policy l = timed_proxy-Allows m name policy l
  proxy_by-Allows per_request m identity name policy l = per_request_proxy-Allows m policy l

  -- The proxy that `proxy_for` chooses for a client is one that the client's policy allows, whichever
  -- rotation the policy asks for, and whether the proxy is held, chosen anew, or the active one that
  -- is taken where none matches. It says nothing of the proxies that take over after a failure.
  pub proxy_for-allows :
      (m : Moment F) (identity name : Text) (policy : ProxyPolicy F) (l : LocalProxy F)
      (p : ProxyInfo F)
      → (proxy_for fl m identity name policy l).1 ≡ some p
      → allows fl policy p ≡ true
  unfolding proxy_for
  proxy_for-allows m identity name policy l p e =
      proxy_by-Allows policy.rotation m identity name policy l p e
