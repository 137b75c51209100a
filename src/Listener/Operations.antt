-- ===== src/Listener/Operations.antt =====
-- Every operation of crates/proxy-core/src/local_proxy.rs that changes the tables, as one step. The
-- search for a tunnel changes them by the failures that it records; what other parts of the program
-- do to the pool are the pool's operations.
use proxy_switcher.Common.{ℕ, List, [], ◌∷◌}
use proxy_switcher.Common.Text.{Text}
use proxy_switcher.Credentials.Policy.{ProxyPolicy}
use proxy_switcher.Listener.Sessions.{proxy_for, rotate_session, rotate_policy, rotate_credential}
use proxy_switcher.Listener.State.{LocalProxy, Moment, pin_session, record_failure}
use proxy_switcher.Listener.Tunnel.{count_failure}
use proxy_switcher.Pool.Health.{report_failure}
use proxy_switcher.Pool.Operations.{Operation}
use proxy_switcher.Pool.Operations
use proxy_switcher.Pool.State.{empty_pool}
use proxy_switcher.Pool.Types.{Floats, ProxyInfo}

-- `LocalProxy::new` with a new pool.
abbrev pub new_listener : {F : Type 0} → LocalProxy F
new_listener = record {
  pool = empty_pool;
  sessions = [];
  slots = [];
  avoided = [];
  recent = [];
  failures = 0;
  rotations = 0;
}

module _ (fl : Floats) where
  open fl use {F}

  -- The watchdog of `pipe` that finds a tunnel half dead.
  unfoldable pub half_dead : Moment F → ProxyInfo F → LocalProxy F → LocalProxy F
  unfolding report_failure
  half_dead m p l =
      let counted = count_failure fl l in
      record counted { pool = report_failure fl m.schedule m.now l.pool p.id }

  pub data Call : Type 0 where
    chooses : Moment F → Text → Text → ProxyPolicy F → Call
    turns_session : Text → Call
    turns_policy : Text → Call
    turns_credential : Text → Call
    pins : ℕ → Text → ProxyInfo F → ℕ → Call
    fails : Moment F → ProxyInfo F → Call
    watches : Moment F → ProxyInfo F → Call
    changes_pool : Operation fl → Call

  unfoldable pub step_listener : Call → LocalProxy F → LocalProxy F
  unfolding proxy_for rotate_session rotate_policy rotate_credential pin_session record_failure
      half_dead Operations.step
  step_listener (chooses m identity name policy) l = (proxy_for fl m identity name policy l).0
  step_listener (turns_session identity) l = (rotate_session identity l).0
  step_listener (turns_policy policy) l = (rotate_policy policy l).0
  step_listener (turns_credential credential) l = (rotate_credential credential l).0
  step_listener (pins instant identity p secs) l = pin_session instant identity p secs l
  step_listener (fails m p) l = record_failure fl m p (count_failure fl l)
  step_listener (watches m p) l = half_dead m p l
  step_listener (changes_pool o) l = record l { pool = Operations.step fl o l.pool }

  unfoldable pub run_listener : List Call → LocalProxy F → LocalProxy F
  unfolding step_listener
  run_listener [] l = l
  run_listener (c ∷ cs) l = run_listener cs (step_listener c l)
