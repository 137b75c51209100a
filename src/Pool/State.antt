-- ===== src/Pool/State.antt =====
-- `PoolInner` and `ProbeSchedule` of crates/proxy-core/src/pool/mod.rs, and the changes that the
-- operations share. An index out of range, where the code panics, leaves the list alone here;
-- `Pool.Indexed` shows that the index never leads there.
use proxy_switcher.Common.{
  ℕ, ◌-◌, Bool, true, Option, none, some, List, [], ◌∷◌, ◌++◌, if◌then◌else◌, length, get_elem?,
  modify,
}
use proxy_switcher.Common.Text.{Text, contains}
use proxy_switcher.Pool.Index.{Index, empty_index, insert_at, retain_from}
use proxy_switcher.Pool.Types.{ProxyInfo}

pub record PoolInner (F : Type 0) : Type 0 where
  pub proxies : List (ProxyInfo F)
  pub index : Index
  pub active_index : Option ℕ
  pub pending_eviction : List Text
  pub condemned : List Text

pub record EvictionPolicy : Type 0 where
  pub max_consecutive_failures : ℕ
  pub unverified_ttl_secs : ℕ

pub record ProbeSchedule : Type 0 where
  pub working_interval_secs : ℕ
  pub failed_backoff_secs : List ℕ
  pub inconclusive_backoff_secs : ℕ

abbrev pub default_eviction : EvictionPolicy
default_eviction = record { max_consecutive_failures = 3; unverified_ttl_secs = 3600 }

abbrev pub default_schedule : ProbeSchedule
default_schedule = record {
  working_interval_secs = 600;
  failed_backoff_secs = 60 ∷ 300 ∷ 900 ∷ 3600 ∷ 10800 ∷ 21600 ∷ [];
  inconclusive_backoff_secs = 300;
}

-- The last entry, or the default.
abbrev pub last_or : List ℕ → ℕ → ℕ
last_or [] d = d
last_or (x ∷ xs) d = last_or xs x

abbrev pub or_else : Option ℕ → ℕ → ℕ
or_else none d = d
or_else (some x) d = x

-- `ProbeSchedule::failed_backoff`
unfoldable pub failed_backoff : ProbeSchedule → ℕ → ℕ
failed_backoff s failures =
    or_else (get_elem? s.failed_backoff_secs (failures - 1)) (last_or s.failed_backoff_secs 3600)

-- One second of the clock.
abbrev pub second : ℕ
second = 1_000_000_000

-- `set.insert(key)`
abbrev pub insert_key : Text → List Text → List Text
insert_key key keys = if contains keys key then keys else key ∷ keys

abbrev pub insert_keys : List Text → List Text → List Text
insert_keys [] keys = keys
insert_keys (k ∷ ks) keys = insert_keys ks (insert_key k keys)

abbrev pub place_of : Index → Option Text → Option ℕ
place_of ix none = none
place_of ix (some id) = ix id

module _ {F : Type 0} where
  abbrev pub empty_pool : PoolInner F
  empty_pool = record {
    proxies = [];
    index = empty_index;
    active_index = none;
    pending_eviction = [];
    condemned = [];
  }

  abbrev pub id_of : ProxyInfo F → Text
  id_of p = p.id

  -- `inner.index.insert(id, slot); inner.proxies.push(proxy);`
  abbrev pub push : ProxyInfo F → PoolInner F → PoolInner F
  push p inner = record inner {
    proxies = inner.proxies ++ p ∷ [];
    index = insert_at p.id (length inner.proxies) inner.index;
  }

  -- A change of the record at a place.
  abbrev pub modify_at : ℕ → (ProxyInfo F → ProxyInfo F) → PoolInner F → PoolInner F
  modify_at i f inner = record inner { proxies = modify inner.proxies i f }

  abbrev pub id_at : List (ProxyInfo F) → Option ℕ → Option Text
  id_at ps none = none
  id_at ps (some i) = elim (get_elem? ps i) [ none ↦ none | some p ↦ some p.id ]

  -- `retain`: one pass over the records rebuilds the index, and the active proxy is found again
  -- by its id.
  unfoldable pub retain : (ProxyInfo F → Bool) → PoolInner F → PoolInner F
  unfolding retain_from
  retain keep inner =
      let active_id = id_at inner.proxies inner.active_index in
      let kept = retain_from id_of keep 0 empty_index inner.proxies in
      record inner { proxies = kept.0; index = kept.1; active_index = place_of kept.1 active_id }

  -- `ProxyInfo::discovered`, at a reading of the clock; `zero` is the score 0.0.
  abbrev pub discovered : F → ℕ → ProxyInfo F → ProxyInfo F
  discovered zero now p = record p {
    last_checked = none;
    last_success = none;
    consecutive_failures = 0;
    score = zero;
    first_seen = now;
    next_probe_at = now;
    supports_tunnel = true;
  }
