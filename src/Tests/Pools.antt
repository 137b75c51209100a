-- ===== src/Tests/Pools.antt =====
-- The pool: the theorems at a pool of two proxies.
use proxy_switcher.Common.{
  ℕ, ◌≡◌, inl, inr, refl, arith, true, false, not, ◌&&◌, some, none, List, [], ◌∷◌,
}
use proxy_switcher.Common.Member.{In}
use proxy_switcher.Common.Text.{codes, equal, contains}
use proxy_switcher.Credentials.Policy.{default_policy, allows}
use proxy_switcher.Pool.Capacity.{enforce_capacity_drops_latest}
use proxy_switcher.Pool.Chosen.{
  IsBest, Orders, best_matching-IsBest, Activated, activate_best_avoiding-Activated,
}
use proxy_switcher.Pool.Discovery.{
  enforce_capacity, merge, evict_pending, sort_by, doomed, rank_order,
}
use proxy_switcher.Pool.Evicted.{evicted_stays_out}
use proxy_switcher.Pool.Exhausted.{failures-evict}
use proxy_switcher.Pool.Health.{apply_health_result, apply_health_results}
use proxy_switcher.Pool.Indexed.{IsIndexed, ids}
use proxy_switcher.Pool.Noted.{Noted, apply_health_result_lem}
use proxy_switcher.Pool.Operations.{
  Operation, merges, applies, evicts, enforces, sets_active, rotates, removes, run,
}
use proxy_switcher.Pool.Operations.Keeps.{run-empty_pool-IsIndexed}
use proxy_switcher.Pool.Ranking.{NoLater}
use proxy_switcher.Pool.Select.{
  get, best_matching, best_avoiding, activate_best_avoiding, by_effective_score, is_avoided,
  is_usable,
}
use proxy_switcher.Pool.State.{empty_pool, default_eviction, default_schedule, retain}
use proxy_switcher.Pool.Types.{HealthResult, failed}
use proxy_switcher.Tests.Values.{whole, probed, two, two-IsIndexed}

abbrev failure : HealthResult
failure = record {
  proxy_id = codes "a";
  verdict = failed;
  latency_ms = 0;
  error = some (codes "timeout");
  tunneled = false;
  anonymity = none;
  exit_ip = none;
}

-- Two proxies are found, the first is activated and fails, and the pool is cut to one.
abbrev history : List (Operation whole)
history =
    merges (λ n. n) (probed (codes "a") 0 0 ∷ probed (codes "b") 0 0 ∷ [])
    ∷ sets_active (codes "a")
    ∷ applies failure default_eviction default_schedule 7
    ∷ evicts
    ∷ enforces 1
    ∷ rotates
    ∷ removes (codes "b")
    ∷ []

run-empty_pool-IsIndexed_example : IsIndexed (run whole history empty_pool)
run-empty_pool-IsIndexed_example = run-empty_pool-IsIndexed whole history

later_is_gone : contains (ids (enforce_capacity whole two 1).0) (codes "b") ≡ false
unfolding enforce_capacity retain doomed sort_by rank_order equal
later_is_gone = refl

earlier_is_kept : In (probed (codes "a") 100 5) (enforce_capacity whole two 1).0.proxies
unfolding enforce_capacity retain doomed sort_by rank_order equal
earlier_is_kept = inl refl

enforce_capacity_drops_latest_example : NoLater (some 100) (some 200)
enforce_capacity_drops_latest_example =
    enforce_capacity_drops_latest whole two 1 (probed (codes "b") 200 7) (probed (codes "a") 100 5)
      two-IsIndexed (inr (inl refl)) later_is_gone earlier_is_kept

b_waits : contains two.pending_eviction (codes "b") ≡ true
unfolding equal
b_waits = refl

evicted_stays_out_example :
    (merge whole (λ n. n) (evict_pending whole two).0 (probed (codes "b") 300 9 ∷ [])).0.index
      (codes "b")
    ≡ none
evicted_stays_out_example =
    evicted_stays_out whole (λ n. n) two (probed (codes "b") 300 9 ∷ []) (codes "b") two-IsIndexed
      b_waits

apply_health_result_lem_example :
    Noted whole failure default_eviction default_schedule 7 failed two
      (apply_health_result whole failure default_eviction default_schedule 7 two)
apply_health_result_lem_example =
    apply_health_result_lem whole failure default_eviction default_schedule 7 two two-IsIndexed

whole-Orders : (now : ℕ) → Orders whole now
whole-Orders now = (λ a b h. ground arith, λ a b c h k. ground arith)

best_matching-IsBest_example :
    IsBest
      (by_effective_score whole 300)
      (λ p.
        not (is_avoided whole [] [] p)
        && is_usable whole 1 p
        && allows whole (default_policy whole) p)
      two.proxies
      (best_matching whole two 1 300 [] [] (default_policy whole))
best_matching-IsBest_example =
    best_matching-IsBest whole two 1 300 [] [] (default_policy whole) (whole-Orders 300)

activate_best_avoiding-Activated_example :
    Activated whole two
      (best_avoiding whole two 1 300 (codes "a" ∷ []) [])
      (activate_best_avoiding whole 1 300 (codes "a" ∷ []) [] two)
activate_best_avoiding-Activated_example =
    activate_best_avoiding-Activated whole two 1 300 (codes "a" ∷ []) [] two-IsIndexed

a_is_known : get whole two (codes "a") ≡ some (probed (codes "a") 100 5)
unfolding get equal proxy_switcher.Pool.Index.position
a_is_known = refl

failures-evict_example :
    (evict_pending whole
        (apply_health_results whole default_eviction default_schedule
          ((7, failure) ∷ (8, failure) ∷ (9, failure) ∷ [])
          two).0).0.index
      (codes "a")
    ≡ none
failures-evict_example =
    failures-evict whole default_eviction default_schedule failure (7 ∷ 8 ∷ 9 ∷ []) two
      (probed (codes "a") 100 5) two-IsIndexed refl a_is_known (omega arith) (omega arith)
      (omega arith)
