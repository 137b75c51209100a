-- ===== src/Listener/Sessions.antt =====
-- How crates/proxy-core/src/local_proxy.rs chooses the proxy of a client, and how an operator turns
-- a choice over. A choice is made here with nothing of other tasks between its locks.
use proxy_switcher.Address.{IpAddr}
use proxy_switcher.Common.{
  ℕ, ◌+◌, ◌*◌, Bool, true, false, Option, none, some, List, [], ◌∷◌, ◌++◌, map, if◌then◌else◌, ltb,
}
use proxy_switcher.Common.Table.{find, remove, put}
use proxy_switcher.Common.Text.{Text, codes, strip_prefix}
use proxy_switcher.Credentials.Policy.{
  ProxyPolicy, Rotation, by_time, per_request, sticky, allows, or_empty,
}
use proxy_switcher.Listener.State.{
  Session, Slot, LocalProxy, Moment, is_over, host_key, session_of, remember,
}
use proxy_switcher.Pool.Select.{best_matching, get, active}
use proxy_switcher.Pool.State.{PoolInner, second, insert_key}
use proxy_switcher.Pool.Types.{Floats, ProxyInfo, is_some}

-- `.unwrap_or_default()` of a set.
abbrev pub or_none : Option (List Text) → List Text
or_none none = []
or_none (some ks) = ks

-- `avoided.entry(key).or_default().insert(id)`
abbrev pub avoid : Text → Text → List (Text × List Text) → List (Text × List Text)
avoid key id table = put key (insert_key id (or_none (find key table))) table

-- The addresses of those entries that have one.
abbrev pub exits : List (Option IpAddr) → List IpAddr
exits [] = []
exits (none ∷ es) = exits es
exits (some e ∷ es) = e ∷ exits es

-- The proxies and the servers that sessions are held on.
abbrev pub pinned : List (Text × Session) → List Text
pinned sessions = map (λ e. e.1.proxy_id) sessions ++ map (λ e. host_key e.1.host) sessions

abbrev pub session_exits : List (Text × Session) → List IpAddr
session_exits sessions = exits (map (λ e. e.1.exit_ip) sessions)

abbrev pub proxy_of_slot : Option Slot → Option Text
proxy_of_slot none = none
proxy_of_slot (some s) = s.proxy_id

module _ {F : Type 0} where
  -- `recently_used`
  unfoldable pub recently_used : LocalProxy F → List Text × List IpAddr
  recently_used l = (map (λ u. u.id) l.recent, exits (map (λ u. u.exit_ip) l.recent))

  abbrev pub turned_over : Text → Option Session → LocalProxy F → LocalProxy F × Bool
  turned_over identity none l = (l, false)
  turned_over identity (some s) l = (
    record l {
      sessions = remove identity l.sessions;
      avoided = avoid identity s.proxy_id l.avoided;
    },
    true,
  )

  -- `rotate_session`
  unfoldable pub rotate_session : Text → LocalProxy F → LocalProxy F × Bool
  unfolding find remove put
  rotate_session identity l = turned_over identity (find identity l.sessions) l

  abbrev pub slot_turned_over : Text → Option Text → LocalProxy F → LocalProxy F × Bool
  slot_turned_over policy none l = (l, false)
  slot_turned_over policy (some id) l = (record l { avoided = avoid policy id l.avoided }, true)

  -- `rotate_policy`: the slot is removed, and its proxy, if it has one, is avoided.
  unfoldable pub rotate_policy : Text → LocalProxy F → LocalProxy F × Bool
  unfolding find remove put
  rotate_policy policy l =
      slot_turned_over policy (proxy_of_slot (find policy l.slots))
        (record l { slots = remove policy l.slots })

  -- The loop of `rotate_credential` over the sessions' keys, with how many it turned over.
  unfoldable pub turn_over_each : Text → List (Text × Session) → LocalProxy F → LocalProxy F × ℕ
  unfolding rotate_session strip_prefix
  turn_over_each prefix [] l = (l, 0)
  turn_over_each prefix ((key, s) ∷ sessions) l = elim (is_some (strip_prefix prefix key)) [
    | true ↦
        let (next, n) = turn_over_each prefix sessions (rotate_session key l).0 in (next, n + 1)
    | false ↦ turn_over_each prefix sessions l
  ]

  -- `rotate_credential`
  unfoldable pub rotate_credential : Text → LocalProxy F → LocalProxy F × ℕ
  unfolding turn_over_each
  rotate_credential credential l = turn_over_each (credential ++ codes ":") l.sessions l

module _ (fl : Floats) where
  open fl use {F}

  -- `.filter(|p| policy.allows(p))`
  abbrev pub allowed : ProxyPolicy F → Option (ProxyInfo F) → Option (ProxyInfo F)
  allowed policy none = none
  allowed policy (some p) = if allows fl policy p then some p else none

  -- Where no proxy matches, the active one is taken if the policy allows it.
  abbrev pub fallback : ProxyPolicy F → PoolInner F → Option (ProxyInfo F)
  fallback policy pool = allowed policy (active fl pool)

  -- The proxy of a pin that has not run out, if the pool has it and the policy allows it.
  abbrev pub held : Moment F → ProxyPolicy F → PoolInner F → Option Session → Option (ProxyInfo F)
  held m policy pool none = none
  held m policy pool (some s) =
      if is_over m.instant s.expires_at then none else allowed policy (get fl pool s.proxy_id)

  abbrev pub pin_choice :
      Moment F
      → Text
      → ProxyPolicy F
      → Option (ProxyInfo F)
      → LocalProxy F
      → LocalProxy F × Option (ProxyInfo F)
  pin_choice m identity policy none l = (l, fallback policy l.pool)
  pin_choice m identity policy (some p) l = (
    record l { sessions = put identity (session_of m.instant policy.sticky_secs p) l.sessions },
    some p,
  )

  -- A client that is not pinned.
  unfoldable pub pin_anew :
      Moment F → Text → ProxyPolicy F → LocalProxy F → LocalProxy F × Option (ProxyInfo F)
  unfolding best_matching find remove put active
  pin_anew m identity policy l =
      let dropped = or_none (find identity l.avoided) in
      pin_choice m identity policy
        (best_matching fl l.pool m.min_score m.now (pinned l.sessions ++ dropped)
          (session_exits l.sessions) policy)
        (record l { avoided = remove identity l.avoided })

  -- `sticky_proxy`
  unfoldable pub sticky_proxy :
      Moment F → Text → ProxyPolicy F → LocalProxy F → LocalProxy F × Option (ProxyInfo F)
  unfolding get pin_anew
  sticky_proxy m identity policy l = elim (held m policy l.pool (find identity l.sessions)) [
    | some p ↦ (l, some p)
    | none ↦ pin_anew m identity policy (record l { sessions = remove identity l.sessions })
  ]

  -- The proxy of a slot whose window is open.
  abbrev pub in_front : Moment F → ProxyPolicy F → PoolInner F → Option Slot → Option (ProxyInfo F)
  in_front m policy pool none = none
  in_front m policy pool (some s) =
      if ltb m.instant s.changes_at
      then allowed policy (get fl pool (or_empty s.proxy_id))
      else none

  abbrev pub slot_choice :
      Moment F
      → Text
      → ProxyPolicy F
      → Option (ProxyInfo F)
      → LocalProxy F
      → LocalProxy F × Option (ProxyInfo F)
  slot_choice m name policy none l = (l, fallback policy l.pool)
  slot_choice m name policy (some p) l = (
    remember p (record l {
      slots =
          put name
            (record {
              proxy_id = some p.id;
              changes_at =
                  m.instant
                  + (if ltb policy.rotate_interval_secs 1 then 1 else policy.rotate_interval_secs)
                    * second;
            })
            l.slots;
    }),
    some p,
  )

  unfoldable pub replace_in_front :
      Moment F → Text → ProxyPolicy F → LocalProxy F → LocalProxy F × Option (ProxyInfo F)
  unfolding best_matching find remove put active remember recently_used
  replace_in_front m name policy l =
      let (used, used_exits) = recently_used l in
      let dropped = or_none (find name l.avoided) in
      slot_choice m name policy
        (best_matching fl l.pool m.min_score m.now (used ++ dropped) used_exits policy)
        (record l { avoided = remove name l.avoided })

  -- `timed_proxy`
  unfoldable pub timed_proxy :
      Moment F → Text → ProxyPolicy F → LocalProxy F → LocalProxy F × Option (ProxyInfo F)
  unfolding get replace_in_front
  timed_proxy m name policy l = elim (in_front m policy l.pool (find name l.slots)) [
    | some p ↦ (l, some p)
    | none ↦ replace_in_front m name policy l
  ]

  abbrev pub request_choice :
      ProxyPolicy F → Option (ProxyInfo F) → LocalProxy F → LocalProxy F × Option (ProxyInfo F)
  request_choice policy none l = (l, fallback policy l.pool)
  request_choice policy (some p) l = (remember p l, some p)

  -- `per_request_proxy`
  unfoldable pub per_request_proxy :
      Moment F → ProxyPolicy F → LocalProxy F → LocalProxy F × Option (ProxyInfo F)
  unfolding best_matching active remember recently_used
  per_request_proxy m policy l =
      let (used, used_exits) = recently_used l in
      request_choice policy (best_matching fl l.pool m.min_score m.now used used_exits policy) l

  -- `proxy_for`
  abbrev pub proxy_by :
      Rotation
      → Moment F
      → Text
      → Text
      → ProxyPolicy F
      → LocalProxy F
      → LocalProxy F × Option (ProxyInfo F)
  proxy_by sticky m identity name policy l = sticky_proxy m identity policy l
  proxy_by by_time m identity name policy l = timed_proxy m name policy l
  proxy_by per_request m identity name policy l = per_request_proxy m policy l

  unfoldable pub proxy_for :
      Moment F → Text → Text → ProxyPolicy F → LocalProxy F → LocalProxy F × Option (ProxyInfo F)
  unfolding sticky_proxy timed_proxy per_request_proxy
  proxy_for m identity name policy l = proxy_by policy.rotation m identity name policy l
