-- ===== src/Listener/History.antt =====
-- What every operation of the local proxy keeps.
use proxy_switcher.Common.{
  ℕ, ◌≤◌, ◌≡◌, inl, inr, refl, not, Option, none, some, List, [], ◌∷◌, ◌++◌, arith, length,
  Bool-cases, Option-cases, if◌then◌else◌,
}
use proxy_switcher.Common.Table.{find, remove}
use proxy_switcher.Common.Text.{Text, codes, equal, strip_prefix}
use proxy_switcher.Credentials.Policy.{ProxyPolicy, Rotation, sticky, by_time, per_request}
use proxy_switcher.Listener.Tables.{
  keys, kept, put-Distinct, remove-Distinct, select-Distinct, find-select, vacate-keys,
  length-forget_oldest,
}
use proxy_switcher.Listener.Operations.{
  Call, chooses, turns_session, turns_policy, turns_credential, pins, fails, watches, changes_pool,
  step_listener, run_listener, new_listener, half_dead,
}
use proxy_switcher.Listener.Sessions.{
  held, in_front, pin_anew, pin_choice, sticky_proxy, slot_choice, replace_in_front, timed_proxy,
  request_choice, per_request_proxy, proxy_for, proxy_by, rotate_session, turned_over,
  rotate_policy, slot_turned_over, proxy_of_slot, turn_over_each, rotate_credential,
}
use proxy_switcher.Listener.State.{
  Session, Slot, LocalProxy, Moment, remember, pin_session, vacate, record_failure, session_of,
  is_id,
}
use proxy_switcher.Listener.Tunnel.{count_failure}
use proxy_switcher.Pool.Index.{Distinct, position}
use proxy_switcher.Pool.Indexed.{IsIndexed}
use proxy_switcher.Pool.Operations.Keeps.{step-IsIndexed}
use proxy_switcher.Pool.Operations.Marks.{report_failure-IsIndexed}
use proxy_switcher.Pool.State.{PoolInner}
use proxy_switcher.Pool.Types.{Floats, ProxyInfo, is_some}

-- The pool is indexed, a client has one pin and a policy one slot at most, and of the used proxies
-- the last sixteen are remembered.
pub record IsConsistent {F : Type 0} (l : LocalProxy F) : Type 0 where
  pub indexed : IsIndexed l.pool
  pub one_pin : Distinct (keys l.sessions)
  pub one_slot : Distinct (keys l.slots)
  pub few : length l.recent ≤ 16

module _ {F : Type 0} where
  -- A change of the sessions, and of what is avoided.
  with_sessions :
      (l : LocalProxy F) (t : List (Text × Session)) (a : List (Text × List Text))
      → Distinct (keys t)
      → IsConsistent l
      → IsConsistent (record l { sessions = t; avoided = a })
  with_sessions l t a d v = record {
    indexed = v.indexed;
    one_pin = d;
    one_slot = v.one_slot;
    few = v.few;
  }

  with_slots :
      (l : LocalProxy F) (t : List (Text × Slot)) (a : List (Text × List Text))
      → Distinct (keys t)
      → IsConsistent l
      → IsConsistent (record l { slots = t; avoided = a })
  with_slots l t a d v = record {
    indexed = v.indexed;
    one_pin = v.one_pin;
    one_slot = d;
    few = v.few;
  }

  remember-IsConsistent :
      (p : ProxyInfo F) (l : LocalProxy F) → IsConsistent l → IsConsistent (remember p l)
  unfolding remember
  remember-IsConsistent p l v = record {
    indexed = v.indexed;
    one_pin = v.one_pin;
    one_slot = v.one_slot;
    few = length-forget_oldest (l.recent ++ record { id = p.id; exit_ip = p.exit_ip } ∷ []);
  }

  pin_session-IsConsistent :
      (instant : ℕ) (identity : Text) (p : ProxyInfo F) (secs : ℕ) (l : LocalProxy F)
      → IsConsistent l
      → IsConsistent (pin_session instant identity p secs l)
  unfolding pin_session
  pin_session-IsConsistent instant identity p secs l v =
      with_sessions l _ l.avoided
        (put-Distinct identity (session_of instant secs p) l.sessions v.one_pin) v

  turned_over-IsConsistent :
      (identity : Text) (s : Option Session) (l : LocalProxy F)
      → IsConsistent l
      → IsConsistent (turned_over identity s l).0
  turned_over-IsConsistent identity none l v = v
  turned_over-IsConsistent identity (some s) l v =
      with_sessions l _ _ (remove-Distinct identity l.sessions v.one_pin) v

  rotate_session-IsConsistent :
      (identity : Text) (l : LocalProxy F)
      → IsConsistent l
      → IsConsistent (rotate_session identity l).0
  unfolding rotate_session
  rotate_session-IsConsistent identity l v =
      turned_over-IsConsistent identity (find identity l.sessions) l v

  slot_turned_over-IsConsistent :
      (policy : Text) (id : Option Text) (l : LocalProxy F)
      → IsConsistent l
      → IsConsistent (slot_turned_over policy id l).0
  slot_turned_over-IsConsistent policy none l v = v
  slot_turned_over-IsConsistent policy (some id) l v = with_slots l l.slots _ v.one_slot v

  rotate_policy-IsConsistent :
      (policy : Text) (l : LocalProxy F) → IsConsistent l → IsConsistent (rotate_policy policy l).0
  unfolding rotate_policy
  rotate_policy-IsConsistent policy l v =
      slot_turned_over-IsConsistent policy (proxy_of_slot (find policy l.slots))
        (record l { slots = remove policy l.slots })
        (with_slots l _ l.avoided (remove-Distinct policy l.slots v.one_slot) v)

  turn_over_each-IsConsistent :
      (prefix : Text) (sessions : List (Text × Session)) (l : LocalProxy F)
      → IsConsistent l
      → IsConsistent (turn_over_each prefix sessions l).0
  unfolding turn_over_each
  turn_over_each-IsConsistent prefix [] l v = v
  turn_over_each-IsConsistent prefix ((key, s) ∷ sessions) l v =
      elim (Bool-cases (is_some (strip_prefix prefix key))) [
        | inl e ↦
            rw (e, turn_over_each)
              (turn_over_each-IsConsistent prefix sessions (rotate_session key l).0
                (rotate_session-IsConsistent key l v))
        | inr e ↦ rw (e, turn_over_each) (turn_over_each-IsConsistent prefix sessions l v)
      ]

module _ (fl : Floats) where
  open fl use {F, of_u64}

  pin_choice-IsConsistent :
      (m : Moment F) (identity : Text) (policy : ProxyPolicy F) (best : Option (ProxyInfo F))
      (l : LocalProxy F)
      → IsConsistent l
      → IsConsistent (pin_choice fl m identity policy best l).0
  pin_choice-IsConsistent m identity policy none l v = v
  pin_choice-IsConsistent m identity policy (some p) l v =
      with_sessions l _ l.avoided
        (put-Distinct identity (session_of m.instant policy.sticky_secs p) l.sessions v.one_pin) v

  sticky_proxy-IsConsistent :
      (m : Moment F) (identity : Text) (policy : ProxyPolicy F) (l : LocalProxy F)
      → IsConsistent l
      → IsConsistent (sticky_proxy fl m identity policy l).0
  unfolding sticky_proxy pin_anew
  sticky_proxy-IsConsistent m identity policy l v =
      elim (Option-cases (held fl m policy l.pool (find identity l.sessions))) [
        | inl f ↦
            rw (f, sticky_proxy)
              (pin_choice-IsConsistent m identity policy _ _
                (with_sessions l _ _ (remove-Distinct identity l.sessions v.one_pin) v))
        | inr (q, f) ↦ rw (f, sticky_proxy) v
      ]

  slot_choice-IsConsistent :
      (m : Moment F) (name : Text) (policy : ProxyPolicy F) (best : Option (ProxyInfo F))
      (l : LocalProxy F)
      → IsConsistent l
      → IsConsistent (slot_choice fl m name policy best l).0
  slot_choice-IsConsistent m name policy none l v = v
  slot_choice-IsConsistent m name policy (some p) l v =
      remember-IsConsistent p _
        (with_slots l _ l.avoided (put-Distinct name _ l.slots v.one_slot) v)

  timed_proxy-IsConsistent :
      (m : Moment F) (name : Text) (policy : ProxyPolicy F) (l : LocalProxy F)
      → IsConsistent l
      → IsConsistent (timed_proxy fl m name policy l).0
  unfolding timed_proxy replace_in_front
  timed_proxy-IsConsistent m name policy l v =
      elim (Option-cases (in_front fl m policy l.pool (find name l.slots))) [
        | inl f ↦
            rw (f, timed_proxy)
              (slot_choice-IsConsistent m name policy _ _ (with_slots l l.slots _ v.one_slot v))
        | inr (q, f) ↦ rw (f, timed_proxy) v
      ]

  request_choice-IsConsistent :
      (policy : ProxyPolicy F) (best : Option (ProxyInfo F)) (l : LocalProxy F)
      → IsConsistent l
      → IsConsistent (request_choice fl policy best l).0
  request_choice-IsConsistent policy none l v = v
  request_choice-IsConsistent policy (some p) l v = remember-IsConsistent p l v

  proxy_by-IsConsistent :
      (rotation : Rotation) (m : Moment F) (identity name : Text) (policy : ProxyPolicy F)
      (l : LocalProxy F)
      → IsConsistent l
      → IsConsistent (proxy_by fl rotation m identity name policy l).0
  unfolding per_request_proxy
  proxy_by-IsConsistent sticky m identity name policy l v =
      sticky_proxy-IsConsistent m identity policy l v
  proxy_by-IsConsistent by_time m identity name policy l v =
      timed_proxy-IsConsistent m name policy l v
  proxy_by-IsConsistent per_request m identity name policy l v =
      request_choice-IsConsistent policy _ l v

  record_failure-IsConsistent :
      (m : Moment F) (p : ProxyInfo F) (l : LocalProxy F)
      → IsConsistent l
      → IsConsistent (record_failure fl m p l)
  unfolding record_failure
  record_failure-IsConsistent m p l v = record {
    indexed = report_failure-IsIndexed fl m.schedule m.now l.pool p.id v.indexed;
    one_pin = select-Distinct _ l.sessions v.one_pin;
    one_slot = rw (vacate-keys p.id l.slots) v.one_slot;
    few = v.few;
  }

  count_failure-IsConsistent :
      (l : LocalProxy F) → IsConsistent l → IsConsistent (count_failure fl l)
  count_failure-IsConsistent l v = record {
    indexed = v.indexed;
    one_pin = v.one_pin;
    one_slot = v.one_slot;
    few = v.few;
  }

  with_pool :
      (l : LocalProxy F) (pool : PoolInner F) (failures : ℕ)
      → IsIndexed pool
      → IsConsistent l
      → IsConsistent (record l { pool = pool; failures = failures })
  with_pool l pool failures i v = record {
    indexed = i;
    one_pin = v.one_pin;
    one_slot = v.one_slot;
    few = v.few;
  }

  step_listener-IsConsistent :
      (c : Call fl) (l : LocalProxy F) → IsConsistent l → IsConsistent (step_listener fl c l)
  unfolding step_listener proxy_for rotate_credential half_dead
  step_listener-IsConsistent (chooses m identity name policy) l v =
      proxy_by-IsConsistent policy.rotation m identity name policy l v
  step_listener-IsConsistent (turns_session identity) l v = rotate_session-IsConsistent identity l v
  step_listener-IsConsistent (turns_policy policy) l v = rotate_policy-IsConsistent policy l v
  step_listener-IsConsistent (turns_credential credential) l v =
      turn_over_each-IsConsistent (credential ++ codes ":") l.sessions l v
  step_listener-IsConsistent (pins instant identity p secs) l v =
      pin_session-IsConsistent instant identity p secs l v
  step_listener-IsConsistent (fails m p) l v =
      record_failure-IsConsistent m p (count_failure fl l) (count_failure-IsConsistent l v)
  step_listener-IsConsistent (watches m p) l v =
      with_pool l _ _ (report_failure-IsIndexed fl m.schedule m.now l.pool p.id v.indexed) v
  step_listener-IsConsistent (changes_pool o) l v =
      with_pool l _ l.failures (step-IsIndexed fl o l.pool v.indexed) v

  run_listener-IsConsistent :
      (cs : List (Call fl)) (l : LocalProxy F)
      → IsConsistent l
      → IsConsistent (run_listener fl cs l)
  unfolding run_listener
  run_listener-IsConsistent [] l v = v
  run_listener-IsConsistent (c ∷ cs) l v =
      run_listener-IsConsistent cs (step_listener fl c l) (step_listener-IsConsistent c l v)

  -- After any history of choices, rotations by an operator, pins, failures and changes of the pool
  -- by others, from a new local proxy on: the pool's index is right, a client has one session and a
  -- policy one slot at most, and at most sixteen used proxies are remembered.
  pub run-new_listener-IsConsistent :
      (cs : List (Call fl)) → IsConsistent (run_listener fl cs new_listener)
  unfolding position
  run-new_listener-IsConsistent cs = run_listener-IsConsistent cs new_listener (record {
    indexed = record { indexed = λ id. refl; distinct = tt; active = λ i e. cc };
    one_pin = tt;
    one_slot = tt;
    few = omega arith;
  })

abbrev pub cleared : Text → Option Slot → Option Slot
cleared id none = none
cleared id (some s) = some (if is_id s.proxy_id id then record s { proxy_id = none } else s)

find-vacate :
    (id k : Text) (slots : List (Text × Slot))
    → find k (vacate id slots) ≡ cleared id (find k slots)
unfolding find vacate
find-vacate id k [] = refl
find-vacate id k ((j, s) ∷ slots) = ground (arith, find-vacate id k slots)

module _ (fl : Floats) where
  open fl use {F}

  -- A failure releases the clients that are pinned to the proxy and no others, takes it out of the
  -- slots that it is in front of and no others, and changes no other part of the tables.
  pub record_failure-releases :
      (m : Moment F) (p : ProxyInfo F) (l : LocalProxy F) (key : Text)
      → IsConsistent l
      → (find key (record_failure fl m p l).sessions
          ≡ kept (λ s. not (equal s.proxy_id p.id)) (find key l.sessions))
        × (find key (record_failure fl m p l).slots ≡ cleared p.id (find key l.slots))
        × ((record_failure fl m p l).avoided ≡ l.avoided)
        × ((record_failure fl m p l).recent ≡ l.recent)
  unfolding record_failure
  record_failure-releases m p l key v = (
    find-select (λ s. not (equal s.proxy_id p.id)) key l.sessions v.one_pin,
    find-vacate p.id key l.slots,
    refl,
    refl,
  )
