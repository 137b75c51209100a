-- ===== src/Pool/Operations/Entries.antt =====
-- Proxies that enter and leave the pool keep its invariant.
use proxy_switcher.Common.{
  ℕ, zero, suc, ◌≡◌, inl, inr, refl, sym, ap, some, List, [], ◌∷◌, map, arith, leb, length,
  get_elem?, modify, Bool-cases, Option-cases, is_empty,
}
use proxy_switcher.Common.Text.{Text, contains}
use proxy_switcher.Pool.Discovery.{
  merge_one, merge, restore_one, restore, add, remove, enforce_capacity, evict_pending, refresh,
}
use proxy_switcher.Pool.Indexed.{
  IsIndexed, index_sound, push-IsIndexed, keep-IsIndexed, modify_at-IsIndexed, retain-IsIndexed,
}
use proxy_switcher.Pool.State.{PoolInner, id_of, discovered}
use proxy_switcher.Pool.Types.{Floats, ProxyInfo, is_some}

module _ (fl : Floats) where
  open fl use {F, of_u64}

  merge_one-IsIndexed :
      (clock : ℕ → ℕ) (inner : PoolInner F) (p : ProxyInfo F)
      → IsIndexed inner
      → IsIndexed (merge_one fl clock inner p).0
  unfolding merge_one
  merge_one-IsIndexed clock inner p v = elim (Bool-cases (contains inner.condemned p.id)) [
    | inl h ↦ rw h v
    | inr h ↦ rw h (elim (Option-cases (inner.index p.id)) [
      | inl e ↦ rw (e, merge_one) (push-IsIndexed _ inner v e)
      | inr (i, e) ↦ rw (e, merge_one) (modify_at-IsIndexed i (refresh fl p) inner (λ _. refl) v)
    ])
  ]

  pub merge-IsIndexed :
      (clock : ℕ → ℕ) (inner : PoolInner F) (ps : List (ProxyInfo F))
      → IsIndexed inner
      → IsIndexed (merge fl clock inner ps).0
  unfolding merge
  merge-IsIndexed clock inner [] v = v
  merge-IsIndexed clock inner (p ∷ ps) v =
      merge-IsIndexed clock (merge_one fl clock inner p).0 ps (merge_one-IsIndexed clock inner p v)

  restore_one-IsIndexed :
      (inner : PoolInner F) (p : ProxyInfo F)
      → IsIndexed inner
      → IsIndexed (restore_one fl inner p).0
  restore_one-IsIndexed inner p v = elim (Option-cases (inner.index p.id)) [
    | inl e ↦ rw e (push-IsIndexed p inner v e)
    | inr (i, e) ↦ rw e v
  ]

  pub restore-IsIndexed :
      (inner : PoolInner F) (ps : List (ProxyInfo F))
      → IsIndexed inner
      → IsIndexed (restore fl inner ps).0
  unfolding restore
  restore-IsIndexed inner [] v = v
  restore-IsIndexed inner (p ∷ ps) v =
      restore-IsIndexed (restore_one fl inner p).0 ps (restore_one-IsIndexed inner p v)

  ids-replace :
      (ps : List (ProxyInfo F)) (i : ℕ) (p q : ProxyInfo F)
      → get_elem? ps i ≡ some p
      → q.id ≡ p.id
      → map id_of (modify ps i (λ _. q)) ≡ map id_of ps
  ids-replace [] i p q e h = refl
  ids-replace (x ∷ ps) zero p q e h = ground arith
  ids-replace (x ∷ ps) (suc i) p q e h = ap (◌∷◌ x.id) (ids-replace ps i p q e h)

  pub add-IsIndexed :
      (now : ℕ) (inner : PoolInner F) (p : ProxyInfo F)
      → IsIndexed inner
      → IsIndexed (add fl now inner p)
  unfolding add
  add-IsIndexed now inner p v = elim (Option-cases (inner.index p.id)) [
    | inl e ↦ rw (e, add) (push-IsIndexed _ inner v e)
    | inr (i, e) ↦
        let (q, found, same) = index_sound inner p.id i v e in
        rw (e, add)
          (keep-IsIndexed inner _
            (ids-replace inner.proxies i q (discovered (of_u64 0) now p) found (sym same)) v)
  ]

  pub remove-IsIndexed :
      (inner : PoolInner F) (id : Text) → IsIndexed inner → IsIndexed (remove fl inner id).0
  unfolding remove
  remove-IsIndexed inner id v = elim (Bool-cases (is_some (inner.index id))) [
    | inl e ↦ rw e (retain-IsIndexed _ inner v)
    | inr e ↦ rw e v
  ]

  pub enforce_capacity-IsIndexed :
      (inner : PoolInner F) (max : ℕ)
      → IsIndexed inner
      → IsIndexed (enforce_capacity fl inner max).0
  unfolding enforce_capacity
  enforce_capacity-IsIndexed inner max v = elim (Bool-cases (leb (length inner.proxies) max)) [
    | inl e ↦ rw e v
    | inr e ↦ rw e (retain-IsIndexed _ inner v)
  ]

  -- The lists of ids that are kept beside the proxies do not matter.
  pub marked-IsIndexed :
      (inner : PoolInner F) (pending condemned : List Text)
      → IsIndexed inner
      → IsIndexed (record inner { pending_eviction = pending; condemned = condemned })
  marked-IsIndexed inner pending condemned v = record {
    indexed = v.indexed;
    distinct = v.distinct;
    active = v.active;
  }

  pub evict_pending-IsIndexed :
      (inner : PoolInner F) → IsIndexed inner → IsIndexed (evict_pending fl inner).0
  unfolding evict_pending
  evict_pending-IsIndexed inner v = elim (Bool-cases (is_empty inner.pending_eviction)) [
    | inl e ↦ rw e v
    | inr e ↦ rw e (retain-IsIndexed _ _ (marked-IsIndexed inner _ _ v))
  ]
