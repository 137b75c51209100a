-- ===== src/Pool/Operations/Keeps.antt =====
-- No operation breaks the invariant of the pool.
use proxy_switcher.Common.{refl, List, [], ◌∷◌}
use proxy_switcher.Pool.Discovery.{remember_condemned}
use proxy_switcher.Pool.Indexed.{IsIndexed}
use proxy_switcher.Pool.Index.{position}
use proxy_switcher.Pool.Select.{best_avoiding, activate_best_avoiding, clear_active}
use proxy_switcher.Pool.State.{PoolInner, empty_pool}
use proxy_switcher.Pool.Types.{Floats}
use proxy_switcher.Pool.Operations.{
  Operation, merges, restores, adds, removes, enforces, evicts, remembers, locates, locates_one,
  applies, reports, activates_best, sets_active, clears, rotates, step, run,
}
use proxy_switcher.Pool.Operations.Entries.{
  merge-IsIndexed, restore-IsIndexed, add-IsIndexed, remove-IsIndexed, enforce_capacity-IsIndexed,
  marked-IsIndexed, evict_pending-IsIndexed,
}
use proxy_switcher.Pool.Operations.Marks.{
  geolocate-IsIndexed, geolocate_one-IsIndexed, apply_health_result-IsIndexed,
  report_failure-IsIndexed,
}
use proxy_switcher.Pool.Operations.Choices.{
  activate_candidate-IsIndexed, set_active-IsIndexed, rotate-IsIndexed,
}

module _ (fl : Floats) where
  open fl use {F, of_u64}

  pub step-IsIndexed :
      (o : Operation fl) (inner : PoolInner F) → IsIndexed inner → IsIndexed (step fl o inner)
  unfolding step best_avoiding
  step-IsIndexed (merges clock ps) inner v = merge-IsIndexed fl clock inner ps v
  step-IsIndexed (restores ps) inner v = restore-IsIndexed fl inner ps v
  step-IsIndexed (adds now p) inner v = add-IsIndexed fl now inner p v
  step-IsIndexed (removes id) inner v = remove-IsIndexed fl inner id v
  step-IsIndexed (enforces max) inner v = enforce_capacity-IsIndexed fl inner max v
  step-IsIndexed evicts inner v = evict_pending-IsIndexed fl inner v
  step-IsIndexed (remembers names) inner v =
      unfold remember_condemned in marked-IsIndexed fl inner inner.pending_eviction _ v
  step-IsIndexed (locates lookup) inner v = geolocate-IsIndexed fl lookup inner v
  step-IsIndexed (locates_one lookup id) inner v = geolocate_one-IsIndexed fl lookup inner id v
  step-IsIndexed (applies r policy schedule now) inner v =
      apply_health_result-IsIndexed fl r policy schedule now inner v
  step-IsIndexed (reports schedule now id) inner v =
      report_failure-IsIndexed fl schedule now inner id v
  step-IsIndexed (activates_best min now avoid exits) inner v =
      unfold activate_best_avoiding in
      activate_candidate-IsIndexed fl inner (best_avoiding fl inner min now avoid exits) v
  step-IsIndexed (sets_active id) inner v = set_active-IsIndexed fl inner id v
  step-IsIndexed clears inner v =
      unfold clear_active in
      record { indexed = v.indexed; distinct = v.distinct; active = λ i e. cc }
  step-IsIndexed rotates inner v = rotate-IsIndexed fl inner v

  run-IsIndexed :
      (os : List (Operation fl)) (inner : PoolInner F)
      → IsIndexed inner
      → IsIndexed (run fl os inner)
  unfolding run
  run-IsIndexed [] inner v = v
  run-IsIndexed (o ∷ os) inner v = run-IsIndexed os (step fl o inner) (step-IsIndexed o inner v)

  -- After any history of operations on a new pool, the index gives for every id its place in the
  -- list, no id stands twice, and the active place is inside the list.
  pub run-empty_pool-IsIndexed : (os : List (Operation fl)) → IsIndexed (run fl os empty_pool)
  unfolding position
  run-empty_pool-IsIndexed os =
      run-IsIndexed os empty_pool
        (record { indexed = λ id. refl; distinct = tt; active = λ i e. cc })
