-- ===== src/Pool/Select.antt =====
-- Which proxy is used: crates/proxy-core/src/pool/mod.rs.
use Prim.Native.Nat.{Ordering}
use proxy_switcher.Address.{IpAddr, ip_eq}
use proxy_switcher.Common.{
  ℕ, ◌+◌, ◌-◌, ◌/◌, ◌%◌, Bool, false, not, ◌&&◌, Option, none, some, List, [], ◌∷◌, ◌++◌, leb, ◌==◌,
  if◌then◌else◌, length, get_elem?, select, any, take,
}
use proxy_switcher.Common.Text.{Text, codes, contains}
use proxy_switcher.Credentials.Policy.{ProxyPolicy, allows}
use proxy_switcher.Pool.Discovery.{or_equal, not_greater}
use proxy_switcher.Pool.State.{PoolInner, second}
use proxy_switcher.Pool.Types.{Floats, ProxyInfo, is_some}

-- `max_by`: of equals the last.
module _ {A : Type 0} (cmp : A → A → Ordering) where
  unfoldable pub max_from : A → List A → A
  max_from best [] = best
  max_from best (x ∷ xs) = max_from (if not_greater (cmp best x) then x else best) xs

  unfoldable pub max_by : List A → Option A
  unfolding max_from
  max_by [] = none
  max_by (x ∷ xs) = some (max_from x xs)

-- `exit_ip.is_some_and(|exit| avoid_exits.contains(&exit))`
abbrev pub exits_by : List IpAddr → Option IpAddr → Bool
exits_by avoid none = false
exits_by avoid (some exit) = any (ip_eq exit) avoid

module _ (fl : Floats) where
  open fl use {F, of_u64, half, div, mul, powf, ge, partial_cmp}

  -- The last probe succeeded.
  abbrev pub is_working : ProxyInfo F → Bool
  is_working p = is_some p.last_success && p.consecutive_failures == 0

  -- The test that `best` and the selections after it share.
  abbrev pub is_usable : F → ProxyInfo F → Bool
  is_usable min_score p = is_working p && p.supports_tunnel && ge p.score min_score

  -- Neither the proxy nor its host nor its exit address is to be avoided.
  abbrev pub is_avoided : List Text → List IpAddr → ProxyInfo F → Bool
  is_avoided avoid avoid_exits p = not (
      not (contains avoid p.id)
      && not (contains avoid (codes "host:" ++ p.host))
      && not (exits_by avoid_exits p.exit_ip))

  abbrev pub aged : F → ℕ → Option ℕ → F
  aged score now none = of_u64 0
  aged score now (some succeeded) =
      mul score (powf half (div (of_u64 ((now - succeeded) / second)) (of_u64 600)))

  -- `effective_score`
  unfoldable pub effective_score : ProxyInfo F → ℕ → F
  effective_score p now = aged p.score now p.last_success

  abbrev pub by_score : ProxyInfo F → ProxyInfo F → Ordering
  by_score a b = or_equal (partial_cmp a.score b.score)

  abbrev pub by_effective_score : ℕ → ProxyInfo F → ProxyInfo F → Ordering
  by_effective_score now a b =
      or_equal (partial_cmp (effective_score a now) (effective_score b now))

  module _ (inner : PoolInner F) where
    -- `due_batch`, `due_count`
    unfoldable pub due_batch : ℕ → ℕ → List (ProxyInfo F)
    due_batch now max = take max (select (λ p. leb p.next_probe_at now) inner.proxies)

    unfoldable pub due_count : ℕ → ℕ
    due_count now = length (select (λ p. leb p.next_probe_at now) inner.proxies)

    -- `unverified`, `working`, `tunnel_capable` and the two counts
    unfoldable pub unverified : List (ProxyInfo F)
    unverified = select (λ p. not (is_some p.last_success)) inner.proxies

    unfoldable pub working : List (ProxyInfo F)
    working = select is_working inner.proxies

    unfoldable pub tunnel_capable : F → List (ProxyInfo F)
    tunnel_capable min_score = select (is_usable min_score) inner.proxies

    unfoldable pub healthy_count : ℕ
    healthy_count = length (select (λ p. is_working p && p.supports_tunnel) inner.proxies)

    unfoldable pub working_count : ℕ
    working_count = length (select is_working inner.proxies)

    -- `best`
    unfoldable pub best : F → Option (ProxyInfo F)
    unfolding max_by
    best min_score = max_by by_score (select (is_usable min_score) inner.proxies)

    -- `best_avoiding`
    unfoldable pub best_avoiding : F → ℕ → List Text → List IpAddr → Option (ProxyInfo F)
    unfolding max_by
    best_avoiding min_score now avoid avoid_exits =
        max_by (by_effective_score now) (
          select (λ p. not (is_avoided avoid avoid_exits p) && is_usable min_score p) inner.proxies)

    -- `best_matching`
    unfoldable pub best_matching :
        F → ℕ → List Text → List IpAddr → ProxyPolicy F → Option (ProxyInfo F)
    unfolding max_by
    best_matching min_score now avoid avoid_exits policy = max_by (by_effective_score now) (
        select
          (λ p. not (is_avoided avoid avoid_exits p) && is_usable min_score p && allows fl policy p)
          inner.proxies)

    -- `get`, `active`
    unfoldable pub get : Text → Option (ProxyInfo F)
    get id = elim (inner.index id) [ none ↦ none | some i ↦ get_elem? inner.proxies i ]

    unfoldable pub active : Option (ProxyInfo F)
    active = elim inner.active_index [ none ↦ none | some i ↦ get_elem? inner.proxies i ]

  abbrev pub activate : PoolInner F → Option ℕ → ProxyInfo F → PoolInner F × Option (ProxyInfo F)
  activate inner none p = (inner, none)
  activate inner (some i) p = (record inner { active_index = some i }, some p)

  abbrev pub activate_candidate :
      PoolInner F → Option (ProxyInfo F) → PoolInner F × Option (ProxyInfo F)
  activate_candidate inner none = (inner, none)
  activate_candidate inner (some p) = activate inner (inner.index p.id) p

  -- `activate_best_avoiding`
  unfoldable pub activate_best_avoiding :
      F → ℕ → List Text → List IpAddr → PoolInner F → PoolInner F × Option (ProxyInfo F)
  unfolding max_by
  activate_best_avoiding min_score now avoid avoid_exits inner = activate_candidate inner (
      max_by (by_effective_score now)
        (select (λ p. not (is_avoided avoid avoid_exits p) && is_usable min_score p) inner.proxies))

abbrev pub next_index : Option ℕ → ℕ → ℕ
next_index none n = 0
next_index (some i) n = (i + 1) % n

module _ {F : Type 0} where
  -- `set_active`
  unfoldable pub set_active : PoolInner F → Text → PoolInner F × Option (ProxyInfo F)
  set_active inner id = elim (inner.index id) [
    | none ↦ (inner, none)
    | some i ↦ (record inner { active_index = some i }, get_elem? inner.proxies i)
  ]

  -- `clear_active`
  unfoldable pub clear_active : PoolInner F → PoolInner F
  clear_active inner = record inner { active_index = none }

  -- `rotate`
  unfoldable pub rotate : PoolInner F → PoolInner F × Option (ProxyInfo F)
  rotate inner =
      if length inner.proxies == 0
      then (inner, none)
      else (let next = next_index inner.active_index (length inner.proxies) in
          (record inner { active_index = some next }, get_elem? inner.proxies next))
