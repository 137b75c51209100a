-- ===== src/Pool/Operations/Marks.antt =====
-- What is learnt of the proxies keeps the invariant of the pool.
use proxy_switcher.Address.{IpAddr}
use proxy_switcher.Common.{
  ℕ, ◌≡◌, inl, inr, refl, Option, none, some, List, [], ◌∷◌, map, Bool-cases, Option-cases,
}
use proxy_switcher.Common.Text.{Text}
use proxy_switcher.Pool.Discovery.{
  geolocate_all, geolocate, geolocate_one, set_country, country_of_exit, located_at,
}
use proxy_switcher.Pool.Health.{
  note_working, note_inconclusive, note_failed, judge, is_condemned, apply_verdict,
  apply_health_result, report_failure,
}
use proxy_switcher.Pool.Indexed.{IsIndexed, keep-IsIndexed, modify_at-IsIndexed}
use proxy_switcher.Pool.State.{PoolInner, EvictionPolicy, ProbeSchedule, id_of}
use proxy_switcher.Pool.Types.{
  Floats, ProxyInfo, Verdict, working, failed, inconclusive, HealthResult,
}
use proxy_switcher.Pool.Operations.Entries.{marked-IsIndexed}

module _ (fl : Floats) where
  open fl use {F, of_u64}

  set_country-id : (code : Option Text) (p : ProxyInfo F) → (set_country code p).id ≡ p.id
  set_country-id none p = refl
  set_country-id (some code) p = refl

  ids-geolocate_all :
      (lookup : IpAddr → Option Text) (ps : List (ProxyInfo F))
      → map id_of (geolocate_all lookup ps).0 ≡ map id_of ps
  unfolding geolocate_all
  ids-geolocate_all lookup [] = refl
  ids-geolocate_all lookup (p ∷ ps) =
      cc (set_country-id (country_of_exit lookup p.exit_ip) p, ids-geolocate_all lookup ps)

  pub geolocate-IsIndexed :
      (lookup : IpAddr → Option Text) (inner : PoolInner F)
      → IsIndexed inner
      → IsIndexed (geolocate lookup inner).0
  unfolding geolocate
  geolocate-IsIndexed lookup inner v =
      keep-IsIndexed inner _ (ids-geolocate_all lookup inner.proxies) v

  located_at-IsIndexed :
      (inner : PoolInner F) (i : ℕ) (code : Option Text)
      → IsIndexed inner
      → IsIndexed (located_at inner i code).0
  located_at-IsIndexed inner i none v = v
  located_at-IsIndexed inner i (some code) v =
      modify_at-IsIndexed i (set_country (some code)) inner (λ _. refl) v

  pub geolocate_one-IsIndexed :
      (lookup : IpAddr → Option Text) (inner : PoolInner F) (id : Text)
      → IsIndexed inner
      → IsIndexed (geolocate_one lookup inner id).0
  unfolding geolocate_one
  geolocate_one-IsIndexed lookup inner id v = elim (Option-cases (inner.index id)) [
    | inl e ↦ rw (e, geolocate_one) v
    | inr (i, e) ↦ rw (e, geolocate_one) (located_at-IsIndexed inner i _ v)
  ]

  judge-IsIndexed :
      (policy : EvictionPolicy) (now : ℕ) (o : Option (ProxyInfo F)) (inner : PoolInner F)
      → IsIndexed inner
      → IsIndexed (judge fl policy now o inner).0
  unfolding judge
  judge-IsIndexed policy now none inner v = v
  judge-IsIndexed policy now (some p) inner v = elim (Bool-cases (is_condemned fl policy now p)) [
    | inl e ↦ unfold is_condemned in rw e (marked-IsIndexed fl inner _ inner.condemned v)
    | inr e ↦ unfold is_condemned in rw e v
  ]

  apply_verdict-IsIndexed :
      (w : Verdict) (r : HealthResult) (policy : EvictionPolicy) (schedule : ProbeSchedule)
      (now i : ℕ) (inner : PoolInner F)
      → IsIndexed inner
      → IsIndexed (apply_verdict fl w r policy schedule now i inner).0
  unfolding apply_verdict
  apply_verdict-IsIndexed working r policy schedule now i inner v =
      modify_at-IsIndexed i (note_working fl r schedule now) inner (λ _. refl) v
  apply_verdict-IsIndexed inconclusive r policy schedule now i inner v =
      modify_at-IsIndexed i (note_inconclusive fl schedule now) inner (λ _. refl) v
  apply_verdict-IsIndexed failed r policy schedule now i inner v =
      judge-IsIndexed policy now _ _
        (modify_at-IsIndexed i (note_failed fl schedule now) inner (λ _. refl) v)

  pub apply_health_result-IsIndexed :
      (r : HealthResult) (policy : EvictionPolicy) (schedule : ProbeSchedule) (now : ℕ)
      (inner : PoolInner F)
      → IsIndexed inner
      → IsIndexed (apply_health_result fl r policy schedule now inner).0
  unfolding apply_health_result
  apply_health_result-IsIndexed r policy schedule now inner v =
      elim (Option-cases (inner.index r.proxy_id)) [
        | inl e ↦ rw (e, apply_health_result) v
        | inr (i, e) ↦
            rw (e, apply_health_result)
              (apply_verdict-IsIndexed r.verdict r policy schedule now i inner v)
      ]

  pub report_failure-IsIndexed :
      (schedule : ProbeSchedule) (now : ℕ) (inner : PoolInner F) (id : Text)
      → IsIndexed inner
      → IsIndexed (report_failure fl schedule now inner id)
  unfolding report_failure
  report_failure-IsIndexed schedule now inner id v = elim (Option-cases (inner.index id)) [
    | inl e ↦ rw (e, report_failure) v
    | inr (i, e) ↦
        rw (e, report_failure)
          (modify_at-IsIndexed i (note_failed fl schedule now) inner (λ _. refl) v)
  ]
