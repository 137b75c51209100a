-- ===== src/Listener/State.antt =====
-- The tables of `LocalProxy` in crates/proxy-core/src/local_proxy.rs, with the pool behind them.
-- `Instant` and the wall clock are two clocks, both in nanoseconds.
use proxy_switcher.Address.{IpAddr}
use proxy_switcher.Common.{
  ℕ, ◌+◌, ◌*◌, Bool, false, not, Option, none, some, List, [], ◌∷◌, ◌++◌, if◌then◌else◌, ltb, leb,
  length, select,
}
use proxy_switcher.Common.Table.{put}
use proxy_switcher.Common.Text.{Text, codes, equal}
use proxy_switcher.Pool.Health.{report_failure}
use proxy_switcher.Pool.State.{PoolInner, ProbeSchedule, second}
use proxy_switcher.Pool.Types.{Floats, ProxyInfo}

pub record UsedProxy : Type 0 where
  pub id : Text
  pub exit_ip : Option IpAddr

pub record Session : Type 0 where
  pub proxy_id : Text
  pub exit_ip : Option IpAddr
  pub host : Text
  pub expires_at : Option ℕ

pub record Slot : Type 0 where
  pub proxy_id : Option Text
  pub changes_at : ℕ

-- `LocalProxy` with its pool, and of the statistics the counters that the tables' operations move.
pub record LocalProxy (F : Type 0) : Type 0 where
  pub pool : PoolInner F
  pub sessions : List (Text × Session)
  pub slots : List (Text × Slot)
  pub avoided : List (Text × List Text)
  pub recent : List UsedProxy
  pub failures : ℕ
  pub rotations : ℕ

-- What the pool is set to, and the two clocks.
pub record Moment (F : Type 0) : Type 0 where
  pub schedule : ProbeSchedule
  pub min_score : F
  pub now : ℕ
  pub instant : ℕ

-- `expires_at.is_some_and(|at| Instant::now() >= at)`
abbrev pub is_over : ℕ → Option ℕ → Bool
is_over instant none = false
is_over instant (some at) = leb at instant

-- When a pin of so many seconds runs out.
abbrev pub expiry : ℕ → ℕ → Option ℕ
expiry instant sticky_secs =
    if ltb 0 sticky_secs then some (instant + sticky_secs * second) else none

-- The key under which a server is left out.
abbrev pub host_key : Text → Text
host_key host = codes "host:" ++ host

abbrev pub session_of : {F : Type 0} → ℕ → ℕ → ProxyInfo F → Session
session_of instant sticky_secs p = record {
  proxy_id = p.id;
  exit_ip = p.exit_ip;
  host = p.host;
  expires_at = expiry instant sticky_secs;
}

-- The loop of `remember` that forgets the oldest.
unfoldable pub forget_oldest : List UsedProxy → List UsedProxy
forget_oldest [] = []
forget_oldest (u ∷ us) =
    let rest = forget_oldest us in if ltb 16 (length (u ∷ us)) then rest else u ∷ us

abbrev pub is_id : Option Text → Text → Bool
is_id none id = false
is_id (some i) id = equal i id

-- The slots without a proxy.
unfoldable pub vacate : Text → List (Text × Slot) → List (Text × Slot)
unfolding equal
vacate id [] = []
vacate id ((k, s) ∷ slots) =
    (k, if is_id s.proxy_id id then record s { proxy_id = none } else s) ∷ vacate id slots

module _ {F : Type 0} where
  -- `remember`
  unfoldable pub remember : ProxyInfo F → LocalProxy F → LocalProxy F
  unfolding forget_oldest
  remember p l = record l {
    recent = forget_oldest (l.recent ++ record { id = p.id; exit_ip = p.exit_ip } ∷ []);
  }

  -- `pin_session`
  unfoldable pub pin_session : ℕ → Text → ProxyInfo F → ℕ → LocalProxy F → LocalProxy F
  unfolding put
  pin_session instant identity p sticky_secs l = record l {
    sessions = put identity (session_of instant sticky_secs p) l.sessions;
  }

module _ (fl : Floats) where
  open fl use {F}

  -- `record_failure`
  unfoldable pub record_failure : Moment F → ProxyInfo F → LocalProxy F → LocalProxy F
  unfolding report_failure vacate
  record_failure m p l = record l {
    pool = report_failure fl m.schedule m.now l.pool p.id;
    sessions = select (λ e. not (equal e.1.proxy_id p.id)) l.sessions;
    slots = vacate p.id l.slots;
  }
