-- ===== src/Pool/Health.antt =====
-- What probes and traffic teach the pool: crates/proxy-core/src/pool/mod.rs. The waits of a schedule
-- are seconds that fit the duration type of the code.
use proxy_switcher.Common.{
  ℕ, ◌+◌, ◌-◌, ◌*◌, ◌/◌, ◌^◌, Bool, true, false, not, ◌&&◌, ◌||◌, Option, none, some, List, [], ◌∷◌,
  ltb, leb, ◌==◌, if◌then◌else◌, length, get_elem?, min,
}
use proxy_switcher.Common.Text.{Text}
use proxy_switcher.Pool.State.{
  PoolInner, EvictionPolicy, ProbeSchedule, failed_backoff, second, insert_key, modify_at,
}
use proxy_switcher.Pool.Types.{
  Floats, ProxyInfo, Verdict, working, failed, inconclusive, HealthResult, is_some,
}

-- `now.signed_duration_since(then).num_seconds().unsigned_abs()`
abbrev pub seconds_between : ℕ → ℕ → ℕ
seconds_between now then_ = (if ltb now then_ then then_ - now else now - then_) / second

-- The measured value, or the old one.
abbrev pub or_old : {A : Type 0} → Option A → A → A
or_old none old = old
or_old (some new) old = new

abbrev pub or_old_some : {A : Type 0} → Option A → Option A → Option A
or_old_some none old = old
or_old_some (some new) old = some new

module _ (fl : Floats) where
  open fl use {F, of_u64, half, div, mul, fmin}

  -- `score_for`
  unfoldable pub score_for : ℕ → F
  score_for latency_ms =
      if latency_ms == 0
      then of_u64 0
      else fmin (div (of_u64 1000) (of_u64 latency_ms)) (of_u64 100)

  -- The record after a probe that worked.
  unfoldable pub note_working : HealthResult → ProbeSchedule → ℕ → ProxyInfo F → ProxyInfo F
  note_working r schedule now p = record p {
    latency_ms = some r.latency_ms;
    score = score_for r.latency_ms;
    last_checked = some now;
    last_success = some now;
    consecutive_failures = 0;
    exit_ip = or_old_some r.exit_ip p.exit_ip;
    supports_tunnel = r.tunneled;
    anonymity = or_old r.anonymity p.anonymity;
    next_probe_at = now + schedule.working_interval_secs * second;
  }

  -- The record after a probe that proved nothing.
  unfoldable pub note_inconclusive : ProbeSchedule → ℕ → ProxyInfo F → ProxyInfo F
  note_inconclusive schedule now p = record p {
    last_checked = some now;
    next_probe_at = now + schedule.inconclusive_backoff_secs * second;
  }

  -- `consecutive_failures.saturating_add(1)`
  abbrev pub one_more_failure : ℕ → ℕ
  one_more_failure n = min (n + 1) (2 ^ 32 - 1)

  -- The record after a failure, of a probe or of the traffic.
  unfoldable pub note_failed : ProbeSchedule → ℕ → ProxyInfo F → ProxyInfo F
  note_failed schedule now p = record p {
    last_checked = some now;
    consecutive_failures = one_more_failure p.consecutive_failures;
    score = mul p.score half;
    next_probe_at =
        now + failed_backoff schedule (one_more_failure p.consecutive_failures) * second;
  }

  -- `exhausted || stale_unverified`, of the record after the failure.
  unfoldable pub is_condemned : EvictionPolicy → ℕ → ProxyInfo F → Bool
  is_condemned policy now p =
      leb policy.max_consecutive_failures p.consecutive_failures
      || not (is_some p.last_success)
        && leb policy.unverified_ttl_secs (seconds_between now p.first_seen)

  -- What a failed probe does to the eviction queue, given the record after it.
  unfoldable pub judge :
      EvictionPolicy → ℕ → Option (ProxyInfo F) → PoolInner F → PoolInner F × Bool
  unfolding is_condemned
  judge policy now none inner = (inner, false)
  judge policy now (some p) inner =
      if is_condemned policy now p
      then (record inner { pending_eviction = insert_key p.id inner.pending_eviction }, true)
      else (inner, false)

  unfoldable pub apply_failed :
      EvictionPolicy → ProbeSchedule → ℕ → ℕ → PoolInner F → PoolInner F × Bool
  unfolding note_failed judge
  apply_failed policy schedule now i inner =
      let noted = modify_at i (note_failed schedule now) inner in
      judge policy now (get_elem? noted.proxies i) noted

  unfoldable pub apply_verdict :
      Verdict
      → HealthResult
      → EvictionPolicy
      → ProbeSchedule
      → ℕ
      → ℕ
      → PoolInner F
      → PoolInner F × Bool
  unfolding note_working note_inconclusive apply_failed
  apply_verdict working r policy schedule now i inner =
      (modify_at i (note_working r schedule now) inner, false)
  apply_verdict inconclusive r policy schedule now i inner =
      (modify_at i (note_inconclusive schedule now) inner, false)
  apply_verdict failed r policy schedule now i inner = apply_failed policy schedule now i inner

  -- `apply_health_result`: the new state, and whether the proxy was condemned.
  unfoldable pub apply_health_result :
      HealthResult → EvictionPolicy → ProbeSchedule → ℕ → PoolInner F → PoolInner F × Bool
  unfolding apply_verdict
  apply_health_result r policy schedule now inner = elim (inner.index r.proxy_id) [
    | none ↦ (inner, false)
    | some i ↦ apply_verdict r.verdict r policy schedule now i inner
  ]

  -- `report_failure`, with the pool's own schedule.
  unfoldable pub report_failure : ProbeSchedule → ℕ → PoolInner F → Text → PoolInner F
  unfolding note_failed
  report_failure schedule now inner id = elim (inner.index id) [
    | none ↦ inner
    | some i ↦ modify_at i (note_failed schedule now) inner
  ]

-- `BatchOutcome`
pub record BatchOutcome : Type 0 where
  pub checked : ℕ
  pub working : ℕ
  pub failed : ℕ
  pub inconclusive : ℕ
  pub evicted : ℕ

abbrev pub count_verdict : Verdict → BatchOutcome → BatchOutcome
count_verdict Verdict.working o = record o { working = o.working + 1 }
count_verdict Verdict.failed o = record o { failed = o.failed + 1 }
count_verdict Verdict.inconclusive o = record o { inconclusive = o.inconclusive + 1 }

abbrev pub count_evicted : Bool → BatchOutcome → BatchOutcome
count_evicted true o = record o { evicted = o.evicted + 1 }
count_evicted false o = o

module _ (fl : Floats) (policy : EvictionPolicy) (schedule : ProbeSchedule) where
  open fl use {F}

  -- The loop of `apply_health_results`; each result comes with the clock of its turn.
  unfoldable pub apply_each :
      List (ℕ × HealthResult) → BatchOutcome → PoolInner F → PoolInner F × BatchOutcome
  apply_each [] outcome inner = (inner, outcome)
  apply_each ((now, r) ∷ rs) outcome inner =
      let (next, evicted) = apply_health_result fl r policy schedule now inner in
      apply_each rs (count_evicted evicted (count_verdict r.verdict outcome)) next

  unfoldable pub apply_health_results :
      List (ℕ × HealthResult) → PoolInner F → PoolInner F × BatchOutcome
  unfolding apply_each
  apply_health_results results =
      apply_each results (record {
        checked = length results;
        working = 0;
        failed = 0;
        inconclusive = 0;
        evicted = 0;
      })
