-- ===== src/Pool/Exhausted.antt =====
-- A run of failures ends in the eviction of the proxy.
use mathlib.Core.Option
use proxy_switcher.Common.{
  ℕ, ◌+◌, ◌-◌, ◌≤◌, ◌<◌, ◌^◌, ◌≡◌, min, refl, ap, sym, subst, ◌∙◌, true, none, some, List, [], ◌∷◌,
  map, arith, if◌then◌else◌, length,
}
use proxy_switcher.Common.Text.{Text, contains, equal_refl}
use proxy_switcher.Pool.Discovery.{evict_pending}
use proxy_switcher.Pool.Evicted.{evict_pending-IsOut}
use proxy_switcher.Pool.Health.{
  note_failed, is_condemned, apply_health_result, BatchOutcome, apply_each, apply_health_results,
}
use proxy_switcher.Pool.Indexed.{IsIndexed}
use proxy_switcher.Pool.Noted.{
  Noted, noted as noted_record, condemns, noted-failed, condemned-failed, apply_health_result_lem,
}
use proxy_switcher.Pool.Operations.Marks.{apply_health_result-IsIndexed}
use proxy_switcher.Pool.Select.{get}
use proxy_switcher.Pool.State.{PoolInner, EvictionPolicy, ProbeSchedule, insert_key}
use proxy_switcher.Pool.Types.{Floats, ProxyInfo, HealthResult, failed}

contains-insert_key : (key : Text) (keys : List Text) → contains (insert_key key keys) key ≡ true
contains-insert_key key keys = ground (arith, equal_refl key)

module _ (fl : Floats) (policy : EvictionPolicy) (schedule : ProbeSchedule) where
  open fl use {F}

  failures-note_failed :
      (now : ℕ) (p : ProxyInfo F)
      → (note_failed fl schedule now p).consecutive_failures
        ≡ min (p.consecutive_failures + 1) (2 ^ 32 - 1)
  unfolding note_failed
  failures-note_failed now p = refl

  exhausted_is_condemned :
      (now : ℕ) (p : ProxyInfo F)
      → policy.max_consecutive_failures ≤ p.consecutive_failures
      → is_condemned fl policy now p ≡ true
  unfolding is_condemned
  exhausted_is_condemned now p h = ground arith

  -- One failure of a known proxy: its record behind it, and the ids that wait.
  failure_noted :
      (r : HealthResult) (now : ℕ) (inner : PoolInner F) (p : ProxyInfo F)
      → IsIndexed inner
      → r.verdict ≡ failed
      → get fl inner r.proxy_id ≡ some p
      → let after = (apply_health_result fl r policy schedule now inner).0 in
        (get fl after r.proxy_id ≡ some (note_failed fl schedule now p))
        × (is_condemned fl policy now (note_failed fl schedule now p) ≡ true
            → contains after.pending_eviction r.proxy_id ≡ true)
  failure_noted r now inner p v w e =
      let result = apply_health_result fl r policy schedule now inner in
      let noted =
        subst (λ verdict. Noted fl r policy schedule now verdict inner result) w
          (apply_health_result_lem fl r policy schedule now inner v) in
      let (others, _, _, flag, queue) = noted in
      let id = r.proxy_id in
      let change = noted_record fl r schedule now failed in
      (
        others id
            ∙ ap (λ b. if b then Option.map change (get fl inner id) else get fl inner id)
                (equal_refl id)
            ∙ ap (Option.map change) e
            ∙ ap some (sym (noted-failed fl r schedule now p)),
        λ condemned.
            let flagged =
              flag
              ∙ ap (condemns fl policy schedule now failed) e
              ∙ sym (condemned-failed fl policy schedule now p)
              ∙ condemned in
            ap (λ ks. contains ks id) queue
            ∙ ap
                (λ b.
                  contains
                    (if b then insert_key id inner.pending_eviction else inner.pending_eviction) id)
                flagged
            ∙ contains-insert_key id inner.pending_eviction,
      )

  apply_each-waits :
      (r : HealthResult) (times : List ℕ) (outcome : BatchOutcome) (inner : PoolInner F)
      (p : ProxyInfo F)
      → IsIndexed inner
      → r.verdict ≡ failed
      → get fl inner r.proxy_id ≡ some p
      → policy.max_consecutive_failures ≤ p.consecutive_failures + length times
      → policy.max_consecutive_failures < 2 ^ 32
      → 0 < length times
      → let after = (apply_each fl policy schedule (map (λ now. (now, r)) times) outcome inner).0 in
        IsIndexed after × (contains after.pending_eviction r.proxy_id ≡ true)
  unfolding apply_each
  apply_each-waits r [] outcome inner p v w e enough fits some_left = absurd (omega arith)
  apply_each-waits r (now ∷ []) outcome inner p v w e enough fits some_left =
      let (_, queue) = failure_noted r now inner p v w e in
      let worn =
        exhausted_is_condemned now (note_failed fl schedule now p)
          (omega (arith, failures-note_failed now p)) in
      (apply_health_result-IsIndexed fl r policy schedule now inner v, queue worn)
  apply_each-waits r (now ∷ next ∷ times) outcome inner p v w e enough fits some_left =
      let (there, _) = failure_noted r now inner p v w e in
      apply_each-waits r (next ∷ times) _ (apply_health_result fl r policy schedule now inner).0
        (note_failed fl schedule now p)
        (apply_health_result-IsIndexed fl r policy schedule now inner v) w there
        (omega (arith, failures-note_failed now p)) fits (omega arith)

  -- A proxy whose probes go on failing leaves the pool: once as many failures are applied as
  -- complete the limit of the policy, counted with those that it already has in a row, the next
  -- sweep removes it. Its earlier successes do not matter.
  pub failures-evict :
      (r : HealthResult) (times : List ℕ) (inner : PoolInner F) (p : ProxyInfo F)
      → IsIndexed inner
      → r.verdict ≡ failed
      → get fl inner r.proxy_id ≡ some p
      → policy.max_consecutive_failures ≤ p.consecutive_failures + length times
      → policy.max_consecutive_failures < 2 ^ 32
      → 0 < length times
      → (evict_pending fl
            (apply_health_results fl policy schedule (map (λ now. (now, r)) times) inner).0).0.index
          r.proxy_id
        ≡ none
  unfolding apply_health_results
  failures-evict r times inner p v w e enough fits some_left =
      let (indexed, queue) = apply_each-waits r times _ inner p v w e enough fits some_left in
      (evict_pending-IsOut fl _ r.proxy_id indexed queue).1
