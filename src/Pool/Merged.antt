-- ===== src/Pool/Merged.antt =====
-- What `merge` leaves of the proxies that are known, and what it adds.
use proxy_switcher.Common.{ℕ, ◌≡◌, some, get_elem?}
use proxy_switcher.Pool.State.{PoolInner}
use proxy_switcher.Pool.Types.{ProxyInfo}

module _ {F : Type 0} where
  -- Two records of one proxy whose health is the same.
  pub record SameHealth (p q : ProxyInfo F) : Type 0 where
    pub id : p.id ≡ q.id
    pub latency : p.latency_ms ≡ q.latency_ms
    pub checked : p.last_checked ≡ q.last_checked
    pub succeeded : p.last_success ≡ q.last_success
    pub failures : p.consecutive_failures ≡ q.consecutive_failures
    pub scored : p.score ≡ q.score
    pub probe : p.next_probe_at ≡ q.next_probe_at
    pub tunnels : p.supports_tunnel ≡ q.supports_tunnel
    pub exit : p.exit_ip ≡ q.exit_ip

  -- The record at a place, whose health is as before.
  abbrev pub Kept : PoolInner F → ℕ → ProxyInfo F → Type 0
  Kept inner i p = (q : ProxyInfo F) × (get_elem? inner.proxies i ≡ some q) × SameHealth p q
