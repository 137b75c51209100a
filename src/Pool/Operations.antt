-- ===== src/Pool/Operations.antt =====
-- Every operation of the pool that changes its state, as one step.
pub mod Entries
pub mod Marks
pub mod Choices
pub mod Keeps
use proxy_switcher.Address.{IpAddr}
use proxy_switcher.Common.{ℕ, Option, List, [], ◌∷◌}
use proxy_switcher.Common.Text.{Text}
use proxy_switcher.Pool.Discovery.{
  merge, restore, add, remove, enforce_capacity, evict_pending, remember_condemned, geolocate,
  geolocate_one,
}
use proxy_switcher.Pool.Health.{apply_health_result, report_failure}
use proxy_switcher.Pool.Select.{activate_best_avoiding, set_active, clear_active, rotate}
use proxy_switcher.Pool.State.{PoolInner, EvictionPolicy, ProbeSchedule}
use proxy_switcher.Pool.Types.{Floats, ProxyInfo, HealthResult}

module _ (fl : Floats) where
  open fl use {F, of_u64}

  -- The calls, with the readings of the clock and the answers of the country database.
  pub data Operation : Type 0 where
    merges : (ℕ → ℕ) → List (ProxyInfo F) → Operation
    restores : List (ProxyInfo F) → Operation
    adds : ℕ → ProxyInfo F → Operation
    removes : Text → Operation
    enforces : ℕ → Operation
    evicts : Operation
    remembers : List Text → Operation
    locates : (IpAddr → Option Text) → Operation
    locates_one : (IpAddr → Option Text) → Text → Operation
    applies : HealthResult → EvictionPolicy → ProbeSchedule → ℕ → Operation
    reports : ProbeSchedule → ℕ → Text → Operation
    activates_best : F → ℕ → List Text → List IpAddr → Operation
    sets_active : Text → Operation
    clears : Operation
    rotates : Operation

  unfoldable pub step : Operation → PoolInner F → PoolInner F
  step (merges clock ps) inner = (merge fl clock inner ps).0
  step (restores ps) inner = (restore fl inner ps).0
  step (adds now p) inner = add fl now inner p
  step (removes id) inner = (remove fl inner id).0
  step (enforces max) inner = (enforce_capacity fl inner max).0
  step evicts inner = (evict_pending fl inner).0
  step (remembers ids) inner = remember_condemned fl inner ids
  step (locates lookup) inner = (geolocate lookup inner).0
  step (locates_one lookup id) inner = (geolocate_one lookup inner id).0
  step (applies r policy schedule now) inner =
      (apply_health_result fl r policy schedule now inner).0
  step (reports schedule now id) inner = report_failure fl schedule now inner id
  step (activates_best min now avoid exits) inner =
      (activate_best_avoiding fl min now avoid exits inner).0
  step (sets_active id) inner = (set_active inner id).0
  step clears inner = clear_active inner
  step rotates inner = (rotate inner).0

  unfoldable pub run : List Operation → PoolInner F → PoolInner F
  unfolding step
  run [] inner = inner
  run (o ∷ os) inner = run os (step o inner)
