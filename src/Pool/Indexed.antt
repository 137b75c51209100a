-- ===== src/Pool/Indexed.antt =====
-- The invariant of the pool: the id index is the position of each id in the list, no id stands
-- twice, and the active place is a place of the list. So no index leads out of the list.
use proxy_switcher.Common.{
  ℕ, zero, suc, ◌<◌, ◌≡◌, refl, sym, ap, subst, ◌∙◌, Bool, Option, none, some, List, [], ◌∷◌, map,
  arith, length, length-append, lt-get_elem?, get_elem?, modify, select,
}
use proxy_switcher.Common.Text.{Text, equal_iff}
use proxy_switcher.Pool.Index.{
  empty_index, position, Distinct, position-none_iff, position-append, position-get_elem?,
  get_elem?-position, Distinct-append, retain_from, retain_from-kept, retain_from-index,
  Distinct-select, keys-modify,
}
use proxy_switcher.Pool.State.{PoolInner, id_of, id_at, place_of, push, modify_at, retain}
use proxy_switcher.Pool.Types.{ProxyInfo}
use mathlib.Core.List.{map-append}

module _ {F : Type 0} where
  abbrev pub ids : PoolInner F → List Text
  ids inner = map id_of inner.proxies

  pub record IsIndexed (inner : PoolInner F) : Type 0 where
    pub indexed : (id : Text) → inner.index id ≡ position id (ids inner)
    pub distinct : Distinct (ids inner)
    pub active : (i : ℕ) → inner.active_index ≡ some i → i < length inner.proxies

  get_elem?-map :
      (ps : List (ProxyInfo F)) (i : ℕ) (p : ProxyInfo F)
      → get_elem? ps i ≡ some p
      → get_elem? (map id_of ps) i ≡ some p.id
  get_elem?-map [] i p e = cc
  get_elem?-map (q ∷ ps) zero p e = ground arith
  get_elem?-map (q ∷ ps) (suc i) p e = get_elem?-map ps i p e

  get_elem?-of_map :
      (ps : List (ProxyInfo F)) (i : ℕ) (k : Text)
      → get_elem? (map id_of ps) i ≡ some k
      → (p : ProxyInfo F) × (get_elem? ps i ≡ some p) × (p.id ≡ k)
  get_elem?-of_map [] i k e = cc
  get_elem?-of_map (q ∷ ps) zero k e = (q, refl, ground arith)
  get_elem?-of_map (q ∷ ps) (suc i) k e = get_elem?-of_map ps i k e

  -- The index leads to the record with that id.
  pub index_sound :
      (inner : PoolInner F) (id : Text) (i : ℕ)
      → IsIndexed inner
      → inner.index id ≡ some i
      → (p : ProxyInfo F) × (get_elem? inner.proxies i ≡ some p) × (p.id ≡ id)
  index_sound inner id i v e =
      get_elem?-of_map inner.proxies i id
        (get_elem?-position id (ids inner) i (sym (v.indexed id) ∙ e))

  -- And every record is found.
  pub index_complete :
      (inner : PoolInner F) (i : ℕ) (p : ProxyInfo F)
      → IsIndexed inner
      → get_elem? inner.proxies i ≡ some p
      → inner.index p.id ≡ some i
  index_complete inner i p v e =
      v.indexed p.id
      ∙ position-get_elem? p.id (ids inner) i v.distinct (get_elem?-map inner.proxies i p e)

  length-ids : (ps : List (ProxyInfo F)) → length (map id_of ps) ≡ length ps
  length-ids [] = refl
  length-ids (p ∷ ps) = ap suc (length-ids ps)

  pub push-IsIndexed :
      (p : ProxyInfo F) (inner : PoolInner F)
      → IsIndexed inner
      → inner.index p.id ≡ none
      → IsIndexed (push p inner)
  push-IsIndexed p inner v e = record {
    indexed = λ id. rw (map-append id_of inner.proxies (p ∷ [])) (
        ground (
          arith,
          v.indexed id,
          position-append id p.id (ids inner),
          position-none_iff id (ids inner),
          position-none_iff p.id (ids inner),
          v.indexed p.id,
          equal_iff id p.id,
          length-ids inner.proxies,
        ));
    distinct = rw (map-append id_of inner.proxies (p ∷ [])) (
        Distinct-append p.id (ids inner) v.distinct
          (ground (arith, v.indexed p.id, position-none_iff p.id (ids inner))));
    active = λ i a. omega (arith, v.active i a, length-append inner.proxies (p ∷ []));
  }

  -- A change of the records that keeps their ids.
  pub keep-IsIndexed :
      (inner : PoolInner F) (ps : List (ProxyInfo F))
      → map id_of ps ≡ ids inner
      → IsIndexed inner
      → IsIndexed (record inner { proxies = ps })
  keep-IsIndexed inner ps e v = record {
    indexed = λ id. v.indexed id ∙ ap (position id) (sym e);
    distinct = subst Distinct (sym e) v.distinct;
    active =
        λ i a. omega (arith, v.active i a, ap length e, length-ids ps, length-ids inner.proxies);
  }

  pub modify_at-IsIndexed :
      (i : ℕ) (f : ProxyInfo F → ProxyInfo F) (inner : PoolInner F)
      → ((p : ProxyInfo F) → (f p).id ≡ p.id)
      → IsIndexed inner
      → IsIndexed (modify_at i f inner)
  modify_at-IsIndexed i f inner h v =
      keep-IsIndexed inner (modify inner.proxies i f) (keys-modify id_of f inner.proxies i h) v

  behind_zero :
      (keep : ProxyInfo F → Bool) (ps : List (ProxyInfo F)) (id : Text)
      → Distinct (map id_of ps)
      → (retain_from id_of keep 0 empty_index ps).1 id ≡ position id (map id_of (select keep ps))
  behind_zero keep ps id d = ground (
    arith,
    retain_from-index id_of keep 0 empty_index ps id d,
    position-none_iff id (map id_of (select keep ps)),
  )

  place_of-lt :
      (keep : ProxyInfo F → Bool) (ps : List (ProxyInfo F)) (o : Option Text) (i : ℕ)
      → Distinct (map id_of ps)
      → place_of (retain_from id_of keep 0 empty_index ps).1 o ≡ some i
      → i < length (retain_from id_of keep 0 empty_index ps).0
  place_of-lt keep ps none i d e = cc
  place_of-lt keep ps (some id) i d e =
      let found =
        get_elem?-position id (map id_of (select keep ps)) i (sym (behind_zero keep ps id d) ∙ e) in
      omega (
        arith,
        lt-get_elem? (map id_of (select keep ps)) i found,
        length-ids (select keep ps),
        ap length (retain_from-kept id_of keep 0 empty_index ps),
      )

  pub retain-IsIndexed :
      (keep : ProxyInfo F → Bool) (inner : PoolInner F)
      → IsIndexed inner
      → IsIndexed (retain keep inner)
  unfolding retain
  retain-IsIndexed keep inner v = record {
    indexed = λ id.
        behind_zero keep inner.proxies id v.distinct
        ∙ ap (λ ps. position id (map id_of ps))
            (sym (retain_from-kept id_of keep 0 empty_index inner.proxies));
    distinct =
        subst (λ ps. Distinct (map id_of ps))
          (sym (retain_from-kept id_of keep 0 empty_index inner.proxies))
          (Distinct-select id_of keep inner.proxies v.distinct);
    active = λ i e.
        place_of-lt keep inner.proxies (id_at inner.proxies inner.active_index) i v.distinct e;
  }
