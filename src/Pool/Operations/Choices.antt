-- ===== src/Pool/Operations/Choices.antt =====
-- The choice of the active proxy keeps the invariant of the pool.
use proxy_switcher.Common.{
  ℕ, ◌<◌, ◌≡◌, inl, inr, Option, none, some, arith, ◌==◌, length, lt-get_elem?, Bool-cases,
  Option-cases,
}
use proxy_switcher.Common.Text.{Text}
use proxy_switcher.Pool.Indexed.{IsIndexed, index_sound}
use proxy_switcher.Pool.Select.{activate_candidate, set_active, rotate, next_index}
use proxy_switcher.Pool.State.{PoolInner}
use proxy_switcher.Pool.Types.{Floats, ProxyInfo}

module _ (fl : Floats) where
  open fl use {F, of_u64}

  -- Another place of the list is active.
  active-IsIndexed :
      (inner : PoolInner F) (i : ℕ)
      → i < length inner.proxies
      → IsIndexed inner
      → IsIndexed (record inner { active_index = some i })
  active-IsIndexed inner i h v = record {
    indexed = v.indexed;
    distinct = v.distinct;
    active = λ j e. ground arith;
  }

  indexed-lt :
      (inner : PoolInner F) (id : Text) (i : ℕ)
      → IsIndexed inner
      → inner.index id ≡ some i
      → i < length inner.proxies
  indexed-lt inner id i v e =
      let (p, found, _) = index_sound inner id i v e in lt-get_elem? inner.proxies i found

  pub activate_candidate-IsIndexed :
      (inner : PoolInner F) (o : Option (ProxyInfo F))
      → IsIndexed inner
      → IsIndexed (activate_candidate fl inner o).0
  activate_candidate-IsIndexed inner none v = v
  activate_candidate-IsIndexed inner (some p) v = elim (Option-cases (inner.index p.id)) [
    | inl e ↦ rw e v
    | inr (i, e) ↦ rw e (active-IsIndexed inner i (indexed-lt inner p.id i v e) v)
  ]

  pub set_active-IsIndexed :
      (inner : PoolInner F) (id : Text) → IsIndexed inner → IsIndexed (set_active inner id).0
  unfolding set_active
  set_active-IsIndexed inner id v = elim (Option-cases (inner.index id)) [
    | inl e ↦ rw (e, set_active) v
    | inr (i, e) ↦ rw (e, set_active) (active-IsIndexed inner i (indexed-lt inner id i v e) v)
  ]

  next_index-lt : (o : Option ℕ) (n : ℕ) → 0 < n → next_index o n < n
  next_index-lt none n h = h
  next_index-lt (some i) n h = omega arith

  pub rotate-IsIndexed : (inner : PoolInner F) → IsIndexed inner → IsIndexed (rotate inner).0
  unfolding rotate
  rotate-IsIndexed inner v = elim (Bool-cases (length inner.proxies == 0)) [
    | inl e ↦ rw e v
    | inr e ↦ rw e (active-IsIndexed inner _ (next_index-lt inner.active_index _ (ground arith)) v)
  ]
