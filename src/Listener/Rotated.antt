-- ===== src/Listener/Rotated.antt =====
-- What a client is given behind `rotate_session` of crates/proxy-core/src/local_proxy.rs.
use proxy_switcher.Common.{
  ◌≡◌, ◌≢◌, ◌⊎◌, inl, inr, refl, ap, ◌∙◌, true, false, Option, none, some, List, ◌++◌, arith,
  Option-cases, some-injective, subst,
}
use proxy_switcher.Common.Table.{find, remove, find-put_self, find-remove_self, remove_again}
use proxy_switcher.Common.Text.{Text, contains, equal_refl}
use proxy_switcher.Credentials.Policy.{ProxyPolicy}
use proxy_switcher.Listener.Allowed.{best_matching-In, allowed-allows}
use proxy_switcher.Listener.Apart.{not_avoided}
use proxy_switcher.Listener.Sessions.{
  pin_anew, sticky_proxy, pinned, session_exits, or_none, avoid, rotate_session,
}
use proxy_switcher.Listener.State.{LocalProxy, Moment, Session, session_of}
use proxy_switcher.Pool.Select.{best_matching, active}
use proxy_switcher.Pool.State.{PoolInner, insert_key}
use proxy_switcher.Pool.Types.{Floats, ProxyInfo}

contains-insert_key : (k : Text) (ks : List Text) → contains (insert_key k ks) k ≡ true
contains-insert_key k ks = ground (arith, equal_refl k)

module _ (fl : Floats) where
  open fl use {F}

  -- The proxy that matches the policy apart from these sessions and from what is left out.
  abbrev pub apart_from :
      Moment F
      → ProxyPolicy F
      → PoolInner F
      → List (Text × Session)
      → List Text
      → Option (ProxyInfo F)
  apart_from m policy pool sessions dropped =
      best_matching fl pool m.min_score m.now (pinned sessions ++ dropped) (session_exits sessions)
        policy

  -- The client is pinned to the proxy, which is none of those left out.
  abbrev pub Pinned :
      Moment F → Text → ProxyPolicy F → List Text → LocalProxy F → ProxyInfo F → Type 0
  Pinned m identity policy dropped after p =
      (find identity after.sessions ≡ some (session_of m.instant policy.sticky_secs p))
      × (contains dropped p.id ≡ false)

  -- The client is not pinned, and gets the active proxy, since none matches apart from the others.
  abbrev pub FallsBack :
      Moment F
      → Text
      → ProxyPolicy F
      → PoolInner F
      → List (Text × Session)
      → List Text
      → LocalProxy F
      → ProxyInfo F
      → Type 0
  FallsBack m identity policy pool others dropped after p =
      (find identity after.sessions ≡ none)
      × (active fl pool ≡ some p)
      × (apart_from m policy pool others dropped ≡ none)

  pin_anew-cases :
      (m : Moment F) (identity : Text) (policy : ProxyPolicy F) (l : LocalProxy F) (p : ProxyInfo F)
      → find identity l.sessions ≡ none
      → (pin_anew fl m identity policy l).1 ≡ some p
      → let dropped = or_none (find identity l.avoided) in
        let after = (pin_anew fl m identity policy l).0 in
        Pinned m identity policy dropped after p
        ⊎ FallsBack m identity policy l.pool l.sessions dropped after p
  unfolding pin_anew
  pin_anew-cases m identity policy l p unpinned given =
      let dropped = or_none (find identity l.avoided) in
      let pins = pinned l.sessions ++ dropped in
      let away = session_exits l.sessions in
      elim (Option-cases (apart_from m policy l.pool l.sessions dropped)) [
        | inl e ↦
            let fell = rw (e, pin_anew) at given in
            rw (e, pin_anew)
              (inr (unpinned, (allowed-allows fl policy (active fl l.pool) p fell).1, refl))
        | inr (q, e) ↦
            let (member, new, usable, ok) =
              best_matching-In fl l.pool m.min_score m.now pins away policy q e in
            let same : q ≡ p = some-injective (rw (e, pin_anew) at given) in
            let fresh = (not_avoided fl l.sessions dropped q new).1 in
            rw (e, pin_anew)
              (inl (
                find-put_self identity (session_of m.instant policy.sticky_secs q) l.sessions
                    ∙ ap (λ x. some (session_of m.instant policy.sticky_secs x)) same,
                subst (λ x. contains dropped x.id ≡ false) same fresh,
              ))
      ]

  -- The same of `sticky_proxy`, where the client has no pin.
  unpinned-cases :
      (m : Moment F) (identity : Text) (policy : ProxyPolicy F) (l : LocalProxy F) (p : ProxyInfo F)
      → find identity l.sessions ≡ none
      → (sticky_proxy fl m identity policy l).1 ≡ some p
      → let dropped = or_none (find identity l.avoided) in
        let after = (sticky_proxy fl m identity policy l).0 in
        Pinned m identity policy dropped after p
        ⊎ FallsBack m identity policy l.pool (remove identity l.sessions) dropped after p
  unfolding sticky_proxy
  unpinned-cases m identity policy l p unpinned given =
      let bare = record l { sessions = remove identity l.sessions } in
      rw (unpinned, sticky_proxy)
        (pin_anew-cases m identity policy bare p (find-remove_self identity l.sessions)
          (rw (unpinned, sticky_proxy) at given))

  -- A client whose session is turned over, and that is then given a proxy, is either pinned to it, and
  -- it is another proxy than the one before and none that the client was turned away from; or no
  -- proxy that is not left out matches the policy apart from the other sessions, and the client is
  -- given the active proxy, whichever that is, without a pin.
  pub rotated_session_moves :
      (m : Moment F) (identity : Text) (policy : ProxyPolicy F) (l : LocalProxy F) (old : Session)
      (p : ProxyInfo F)
      → find identity l.sessions ≡ some old
      → (sticky_proxy fl m identity policy (rotate_session identity l).0).1 ≡ some p
      → let dropped = insert_key old.proxy_id (or_none (find identity l.avoided)) in
        let after = (sticky_proxy fl m identity policy (rotate_session identity l).0).0 in
        ((p.id ≢ old.proxy_id) × Pinned m identity policy dropped after p)
        ⊎ FallsBack m identity policy l.pool (remove identity l.sessions) dropped after p
  unfolding rotate_session
  rotated_session_moves m identity policy l old p pin given =
      let known = or_none (find identity l.avoided) in
      let dropped = insert_key old.proxy_id known in
      let turned = record l {
        sessions = remove identity l.sessions;
        avoided = avoid identity old.proxy_id l.avoided;
      } in
      let cases =
        unpinned-cases m identity policy turned p (find-remove_self identity l.sessions)
          (rw (pin, rotate_session) at given) in
      let cases' =
        rw (find-put_self identity dropped l.avoided, remove_again identity l.sessions) at cases in
      rw (pin, rotate_session)
        (elim cases' [
          | inl (at_p, fresh) ↦
              inl (λ same. cc (contains-insert_key old.proxy_id known, same, fresh), (at_p, fresh))
          | inr fell ↦ inr fell
        ])
