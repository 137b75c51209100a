-- ===== src/Pool/Evicted.antt =====
-- A proxy that was evicted does not come back from a source.
use proxy_switcher.Common.{
  ℕ, ◌≡◌, inl, inr, refl, ap, ◌∙◌, Bool, true, false, not, none, List, [], ◌∷◌, map, arith, select,
  is_empty, Bool-cases, Option-cases,
}
use proxy_switcher.Common.Text.{Text, equal_iff, contains}
use proxy_switcher.Pool.Kept.{insert_keys-contains, retain-proxies}
use proxy_switcher.Pool.Discovery.{merge_one, merge, evict_pending}
use proxy_switcher.Pool.Index.{position, position-none_iff}
use proxy_switcher.Pool.Indexed.{IsIndexed, retain-IsIndexed}
use proxy_switcher.Pool.State.{PoolInner, insert_keys, id_of, retain}
use proxy_switcher.Pool.Types.{Floats, ProxyInfo}

-- The id is condemned and in no record of the pool.
abbrev pub IsOut : {F : Type 0} → Text → PoolInner F → Type 0
IsOut id inner = (contains inner.condemned id ≡ true) × (inner.index id ≡ none)

module _ (fl : Floats) where
  open fl use {F}

  merge_one-IsOut :
      (clock : ℕ → ℕ) (inner : PoolInner F) (p : ProxyInfo F) (id : Text)
      → IsOut id inner
      → IsOut id (merge_one fl clock inner p).0
  unfolding merge_one
  merge_one-IsOut clock inner p id (c, o) = elim (Bool-cases (contains inner.condemned p.id)) [
    | inl e ↦ rw e (c, o)
    | inr e ↦ rw e (elim (Option-cases (inner.index p.id)) [
      | inl f ↦ rw (f, merge_one) (c, ground (arith, equal_iff id p.id))
      | inr (i, f) ↦ rw (f, merge_one) (c, o)
    ])
  ]

  merge-IsOut :
      (clock : ℕ → ℕ) (inner : PoolInner F) (ps : List (ProxyInfo F)) (id : Text)
      → IsOut id inner
      → IsOut id (merge fl clock inner ps).0
  unfolding merge
  merge-IsOut clock inner [] id o = o
  merge-IsOut clock inner (p ∷ ps) id o =
      merge-IsOut clock (merge_one fl clock inner p).0 ps id (merge_one-IsOut clock inner p id o)

  without_id :
      (ps : List (ProxyInfo F)) (pending : List Text) (id : Text)
      → contains pending id ≡ true
      → contains (map id_of (select (λ p. not (contains pending p.id)) ps)) id ≡ false
  without_id [] pending id h = refl
  without_id (p ∷ ps) pending id h = ground (arith, without_id ps pending id h, equal_iff id p.id)

  none_in :
      (pending : List Text) (id : Text) → is_empty pending ≡ true → contains pending id ≡ true → ⊥
  none_in [] id e h = cc
  none_in (p ∷ ps) id e h = cc

  condemned_of_retain :
      (keep : ProxyInfo F → Bool) (inner : PoolInner F) (id : Text)
      → contains inner.condemned id ≡ true
      → contains (retain keep inner).condemned id ≡ true
  unfolding retain
  condemned_of_retain keep inner id h = h

  position_of_gone : (id : Text) (ks : List Text) → contains ks id ≡ false → position id ks ≡ none
  position_of_gone id ks h = ground (arith, position-none_iff id ks)

  pub evict_pending-IsOut :
      (inner : PoolInner F) (id : Text)
      → IsIndexed inner
      → contains inner.pending_eviction id ≡ true
      → IsOut id (evict_pending fl inner).0
  unfolding evict_pending
  evict_pending-IsOut inner id v h = elim (Bool-cases (is_empty inner.pending_eviction)) [
    | inl e ↦ absurd (none_in inner.pending_eviction id e h)
    | inr e ↦
        let pending = inner.pending_eviction in
        let marked = record inner {
          pending_eviction = [];
          condemned = insert_keys pending inner.condemned;
        } in
        let keep : ProxyInfo F → Bool = λ p. not (contains pending p.id) in
        let w : IsIndexed marked = record {
          indexed = v.indexed;
          distinct = v.distinct;
          active = v.active;
        } in
        let gone =
          ap (λ ps. contains (map id_of ps) id) (retain-proxies keep marked)
          ∙ without_id inner.proxies pending id h in
        rw e (
          condemned_of_retain keep marked id
              (ground (arith, insert_keys-contains pending inner.condemned id)),
          (retain-IsIndexed keep marked w).indexed id ∙ position_of_gone id _ gone,
        )
  ]

  -- A proxy that was waiting for its eviction is out of the pool behind it, and no list that a
  -- source finds later brings it back.
  pub evicted_stays_out :
      (clock : ℕ → ℕ) (inner : PoolInner F) (found : List (ProxyInfo F)) (id : Text)
      → IsIndexed inner
      → contains inner.pending_eviction id ≡ true
      → (merge fl clock (evict_pending fl inner).0 found).0.index id ≡ none
  evicted_stays_out clock inner found id v h =
      (merge-IsOut clock (evict_pending fl inner).0 found id (evict_pending-IsOut inner id v h)).1
