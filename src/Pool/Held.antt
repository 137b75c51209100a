-- ===== src/Pool/Held.antt =====
-- The active proxy is held by its identity.
use proxy_switcher.Common.{
  ℕ, ◌≡◌, inl, inr, refl, sym, ap, subst, ◌∙◌, Bool, true, false, Option, none, some, map, arith,
  if◌then◌else◌, select, get_elem?, Bool-cases, Option-cases, get_elem?-lt,
}
use proxy_switcher.Common.Member.{In, In-get_elem?, In-select, select-In, contains-In, In-contains}
use proxy_switcher.Common.Text.{Text, contains}
use proxy_switcher.Pool.Index.{position-none_iff}
use proxy_switcher.Pool.Indexed.{IsIndexed, ids, index_sound, retain-IsIndexed}
use proxy_switcher.Pool.Kept.{retain-proxies, Distinct-In}
use proxy_switcher.Pool.Select.{active}
use proxy_switcher.Pool.State.{PoolInner, id_of, id_at, place_of, retain}
use proxy_switcher.Pool.Types.{Floats, ProxyInfo}

abbrev pub kept_by :
    {F : Type 0} → (ProxyInfo F → Bool) → Option (ProxyInfo F) → Option (ProxyInfo F)
kept_by keep none = none
kept_by keep (some p) = if keep p then some p else none

module _ {F : Type 0} where
  -- The record that an id names.
  abbrev found_by : PoolInner F → Option Text → Option (ProxyInfo F)
  found_by inner none = none
  found_by inner (some id) = elim (inner.index id) [
    | none ↦ none
    | some i ↦ get_elem? inner.proxies i
  ]

  place_of_id :
      (inner : PoolInner F) (p : ProxyInfo F)
      → IsIndexed inner
      → In p inner.proxies
      → (i : ℕ) × (inner.index p.id ≡ some i)
  place_of_id inner p v m = elim (Option-cases (inner.index p.id)) [
    | inl e ↦
        let there : contains (ids inner) p.id ≡ true = contains-In id_of inner.proxies p m in
        absurd (ground (arith, v.indexed p.id, position-none_iff p.id (ids inner)))
    | inr (i, e) ↦ (i, e)
  ]

  found_by-In :
      (inner : PoolInner F) (p : ProxyInfo F)
      → IsIndexed inner
      → In p inner.proxies
      → found_by inner (some p.id) ≡ some p
  found_by-In inner p v m =
      let (i, e) = place_of_id inner p v m in
      let (q, found, same) = index_sound inner p.id i v e in
      rw (e, found_by)
        (found
          ∙ ap some (
              Distinct-In inner.proxies q p v.distinct (In-get_elem? inner.proxies i q found) m
                same))

  found_by-gone :
      (inner : PoolInner F) (id : Text)
      → IsIndexed inner
      → contains (ids inner) id ≡ false
      → found_by inner (some id) ≡ none
  found_by-gone inner id v h =
      let missing : inner.index id ≡ none =
        ground (arith, v.indexed id, position-none_iff id (ids inner)) in
      rw (missing, found_by) refl

module _ (fl : Floats) where
  open fl use {F}

  active_found :
      (after : PoolInner F) (o : Option Text)
      → after.active_index ≡ place_of after.index o
      → active fl after ≡ found_by after o
  unfolding active
  active_found after none e = rw (e, active) refl
  active_found after (some id) e = rw (e, active) refl

  active-retain :
      (keep : ProxyInfo F → Bool) (inner : PoolInner F)
      → active fl (retain keep inner)
        ≡ found_by (retain keep inner) (id_at inner.proxies inner.active_index)
  active-retain keep inner =
      active_found (retain keep inner) (id_at inner.proxies inner.active_index)
        (unfold retain in refl)

  active_place :
      (inner : PoolInner F) (i : ℕ)
      → inner.active_index ≡ some i
      → active fl inner ≡ get_elem? inner.proxies i
  unfolding active
  active_place inner i e = rw (e, active) refl

  no_active : (inner : PoolInner F) → inner.active_index ≡ none → active fl inner ≡ none
  unfolding active
  no_active inner e = rw (e, active) refl

  unkept_is_gone :
      (keep : ProxyInfo F → Bool) (inner : PoolInner F) (p : ProxyInfo F)
      → IsIndexed inner
      → In p inner.proxies
      → keep p ≡ false
      → contains (map id_of (select keep inner.proxies)) p.id ≡ false
  unkept_is_gone keep inner p v m h =
      elim (Bool-cases (contains (map id_of (select keep inner.proxies)) p.id)) [
        | inl e ↦
            let (q, k, same) = In-contains id_of (select keep inner.proxies) p.id e in
            let (k', t) = select-In keep inner.proxies q k in
            let q_is_p = Distinct-In inner.proxies q p v.distinct k' m same in
            absurd (cc (sym t ∙ ap keep q_is_p ∙ h))
        | inr e ↦ e
      ]

  retain-found_by :
      (keep : ProxyInfo F → Bool) (inner : PoolInner F) (p : ProxyInfo F)
      → IsIndexed inner
      → In p inner.proxies
      → found_by (retain keep inner) (some p.id) ≡ kept_by keep (some p)
  retain-found_by keep inner p v m =
      let w = retain-IsIndexed keep inner v in
      let kept = retain-proxies keep inner in
      elim (Bool-cases (keep p)) [
        | inl e ↦
            let there = subst (In p) (sym kept) (In-select keep inner.proxies p m e) in
            found_by-In (retain keep inner) p w there ∙ sym (ap (λ b. if b then some p else none) e)
        | inr e ↦
            let gone =
              ap (λ ps. contains (map id_of ps) p.id) kept ∙ unkept_is_gone keep inner p v m e in
            found_by-gone (retain keep inner) p.id w gone
            ∙ sym (ap (λ b. if b then some p else none) e)
      ]

  -- Behind `retain`, which every removal goes through, the active proxy is the one that was active
  -- before, if it is kept, and none if it is not: it never becomes another proxy.
  pub retain_keeps_active :
      (keep : ProxyInfo F → Bool) (inner : PoolInner F)
      → IsIndexed inner
      → active fl (retain keep inner) ≡ kept_by keep (active fl inner)
  retain_keeps_active keep inner v = elim (Option-cases inner.active_index) [
    | inl e ↦
        active-retain keep inner
        ∙ ap (λ o. found_by (retain keep inner) (id_at inner.proxies o)) e
        ∙ sym (ap (kept_by keep) (no_active inner e))
    | inr (i, e) ↦
        let (p, f) = get_elem?-lt inner.proxies i (v.active i e) in
        let id : id_at inner.proxies inner.active_index ≡ some p.id = rw (e, id_at, f) refl in
        active-retain keep inner
        ∙ ap (found_by (retain keep inner)) id
        ∙ retain-found_by keep inner p v (In-get_elem? inner.proxies i p f)
        ∙ sym (ap (kept_by keep) (active_place inner i e ∙ f))
  ]
