-- ===== src/Pool/Discovery.antt =====
-- How proxies enter and leave the pool: crates/proxy-core/src/pool/mod.rs.
use Prim.Native.Nat.{Ordering, compare}
use proxy_switcher.Address.{IpAddr}
use proxy_switcher.Common.{
  ℕ, ◌+◌, ◌-◌, Bool, true, false, not, Option, none, some, List, [], ◌∷◌, map, leb, if◌then◌else◌,
  length, take, get_elem?, is_empty,
}
use proxy_switcher.Common.Text.{Text, equal, contains}
use proxy_switcher.Pool.State.{PoolInner, insert_keys, push, modify_at, retain, discovered}
use proxy_switcher.Pool.Types.{Floats, ProxyInfo, is_some}

-- `Option::cmp`: none comes first.
abbrev pub option_compare : Option ℕ → Option ℕ → Ordering
option_compare none none = Ordering.eq
option_compare none (some b) = Ordering.lt
option_compare (some a) none = Ordering.gt
option_compare (some a) (some b) = compare a b

-- `Ordering::then_with`
abbrev pub then_with : Ordering → Ordering → Ordering
then_with Ordering.lt o = Ordering.lt
then_with Ordering.eq o = o
then_with Ordering.gt o = Ordering.gt

-- `.unwrap_or(Ordering::Equal)`
abbrev pub or_equal : Option Ordering → Ordering
or_equal none = Ordering.eq
or_equal (some o) = o

abbrev pub not_greater : Ordering → Bool
not_greater Ordering.gt = false
not_greater _ = true

-- `sort_by`, which is stable: an entry stays in front of those behind it that it is not greater
-- than.
module _ {A : Type 0} (cmp : A → A → Ordering) where
  unfoldable pub insert_sorted : A → List A → List A
  insert_sorted x [] = x ∷ []
  insert_sorted x (y ∷ ys) = if not_greater (cmp x y) then x ∷ y ∷ ys else y ∷ insert_sorted x ys

  unfoldable pub sort_by : List A → List A
  unfolding insert_sorted
  sort_by [] = []
  sort_by (x ∷ xs) = insert_sorted x (sort_by xs)

module _ (fl : Floats) where
  open fl use {F, of_u64, partial_cmp}

  -- The fields that a source may correct.
  abbrev pub refresh : ProxyInfo F → ProxyInfo F → ProxyInfo F
  refresh found existing = record existing {
    anonymity = found.anonymity;
    country = if is_some existing.country then existing.country else found.country;
  }

  -- One round of the loop of `merge`, with what it adds to the count.
  unfoldable pub merge_one : (ℕ → ℕ) → PoolInner F → ProxyInfo F → PoolInner F × ℕ
  merge_one clock inner p =
      if contains inner.condemned p.id then (inner, 0) else elim (inner.index p.id) [
        | some i ↦ (modify_at i (refresh p) inner, 0)
        | none ↦ (push (discovered (of_u64 0) (clock (length inner.proxies)) p) inner, 1)
      ]

  -- `merge`: the new state and the number of proxies added.
  unfoldable pub merge : (ℕ → ℕ) → PoolInner F → List (ProxyInfo F) → PoolInner F × ℕ
  unfolding merge_one
  merge clock inner [] = (inner, 0)
  merge clock inner (p ∷ ps) =
      let (next, one) = merge_one clock inner p in
      let rest = merge clock next ps in (rest.0, one + rest.1)

  abbrev pub restore_one : PoolInner F → ProxyInfo F → PoolInner F × ℕ
  restore_one inner p = if is_some (inner.index p.id) then (inner, 0) else (push p inner, 1)

  -- `restore`
  unfoldable pub restore : PoolInner F → List (ProxyInfo F) → PoolInner F × ℕ
  restore inner [] = (inner, 0)
  restore inner (p ∷ ps) =
      let (next, one) = restore_one inner p in let rest = restore next ps in (rest.0, one + rest.1)

  -- `add`
  unfoldable pub add : ℕ → PoolInner F → ProxyInfo F → PoolInner F
  add now inner p = elim (inner.index p.id) [
    | some i ↦ modify_at i (λ _. discovered (of_u64 0) now p) inner
    | none ↦ push (discovered (of_u64 0) now p) inner
  ]

  -- `remove`
  unfoldable pub remove : PoolInner F → Text → PoolInner F × Bool
  unfolding retain
  remove inner id =
      if is_some (inner.index id)
      then (retain (λ p. not (equal p.id id)) inner, true)
      else (inner, false)

  -- The order of `enforce_capacity`.
  unfoldable pub rank_order : ProxyInfo F → ProxyInfo F → Ordering
  rank_order a b = then_with (option_compare b.last_success a.last_success) (
      then_with (option_compare a.latency_ms b.latency_ms) (or_equal (partial_cmp b.score a.score)))

  -- The ids that are dropped; the places of `order` are read as the records that stand there.
  unfoldable pub doomed : PoolInner F → ℕ → List Text
  unfolding sort_by rank_order
  doomed inner max_proxies =
      map (λ (p : ProxyInfo F). p.id)
        (take (length inner.proxies - max_proxies) (sort_by rank_order inner.proxies))

  -- `enforce_capacity`; `doomed` is a set, and its size is what is returned.
  unfoldable pub enforce_capacity : PoolInner F → ℕ → PoolInner F × ℕ
  unfolding doomed retain
  enforce_capacity inner max_proxies =
      if leb (length inner.proxies) max_proxies
      then (inner, 0)
      else (let ids = insert_keys (doomed inner max_proxies) [] in
          (retain (λ p. not (contains ids p.id)) inner, length ids))

  -- `evict_pending`
  unfoldable pub evict_pending : PoolInner F → PoolInner F × ℕ
  unfolding retain
  evict_pending inner =
      if is_empty inner.pending_eviction
      then (inner, 0)
      else (let condemned = inner.pending_eviction in
          let marked = record inner {
            pending_eviction = [];
            condemned = insert_keys condemned inner.condemned;
          } in
          (retain (λ p. not (contains condemned p.id)) marked, length condemned))

  -- `remember_condemned`
  unfoldable pub remember_condemned : PoolInner F → List Text → PoolInner F
  remember_condemned inner ids = record inner { condemned = insert_keys ids inner.condemned }

-- The country of an exit address, by a database.
abbrev pub country_of_exit : (IpAddr → Option Text) → Option IpAddr → Option Text
country_of_exit lookup none = none
country_of_exit lookup (some address) = lookup address

abbrev pub moved : Option Text → Option Text → ℕ
moved none country = 0
moved (some code) none = 1
moved (some code) (some country) = if equal country code then 0 else 1

module _ {F : Type 0} where
  abbrev pub set_country : Option Text → ProxyInfo F → ProxyInfo F
  set_country none p = p
  set_country (some code) p = record p { country = some code }

  -- The loop of `geolocate`, with the number of countries that changed.
  unfoldable pub geolocate_all :
      (IpAddr → Option Text) → List (ProxyInfo F) → List (ProxyInfo F) × ℕ
  geolocate_all lookup [] = ([], 0)
  geolocate_all lookup (p ∷ ps) =
      let code = country_of_exit lookup p.exit_ip in
      let rest = geolocate_all lookup ps in
      (set_country code p ∷ rest.0, moved code p.country + rest.1)

  -- `geolocate`
  unfoldable pub geolocate : (IpAddr → Option Text) → PoolInner F → PoolInner F × ℕ
  unfolding geolocate_all
  geolocate lookup inner =
      let located = geolocate_all lookup inner.proxies in
      (record inner { proxies = located.0 }, located.1)

  abbrev pub located_at : PoolInner F → ℕ → Option Text → PoolInner F × Option Text
  located_at inner i none = (inner, none)
  located_at inner i (some code) = (modify_at i (set_country (some code)) inner, some code)

  abbrev pub exit_at : List (ProxyInfo F) → ℕ → Option IpAddr
  exit_at ps i = elim (get_elem? ps i) [ none ↦ none | some p ↦ p.exit_ip ]

  -- `geolocate_one`
  unfoldable pub geolocate_one :
      (IpAddr → Option Text) → PoolInner F → Text → PoolInner F × Option Text
  geolocate_one lookup inner id = elim (inner.index id) [
    | none ↦ (inner, none)
    | some i ↦ located_at inner i (country_of_exit lookup (exit_at inner.proxies i))
  ]
