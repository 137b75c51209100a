-- ===== src/Pool/Capacity.antt =====
-- What `enforce_capacity` keeps and drops.
use proxy_switcher.Common.{
  ℕ, ◌+◌, ◌-◌, ◌≡◌, inl, inr, refl, sym, ap, subst, ◌∙◌, Bool, true, false, not, List, [], map, min,
  arith, leb, length, length-take, take, drop, select, Bool-cases,
}
use proxy_switcher.Common.Member.{
  In, In-select, select-In, In-take_or_drop, take-In, contains-In, In-contains, select-ext,
}
use proxy_switcher.Common.Text.{Text, contains}
use proxy_switcher.Pool.Discovery.{sort_by, rank_order, doomed, enforce_capacity}
use proxy_switcher.Pool.Indexed.{IsIndexed, ids}
use proxy_switcher.Pool.Ranking.{NoLater, sort_by-Descending, take-drop-NoLater}
use proxy_switcher.Pool.Sorting.{
  In-sort_by, sort_by-In, length-select-sort_by, length-sort_by, Distinct-sort_by,
}
use proxy_switcher.Pool.State.{PoolInner, insert_keys, id_of, retain}
use proxy_switcher.Pool.Types.{Floats, ProxyInfo}
use proxy_switcher.Pool.Kept.{
  insert_keys-contains, length-insert_keys, retain-proxies, Distinct-In, length-without,
  length-map_ids, take-Distinct,
}

module _ (fl : Floats) where
  open fl use {F}

  -- The set that `retain` leaves out holds the ids of the first entries of the order.
  contains-doomed :
      (inner : PoolInner F) (max : ℕ) (k : Text)
      → contains (insert_keys (doomed fl inner max) []) k ≡ contains (doomed fl inner max) k
  contains-doomed inner max k = ground (arith, insert_keys-contains (doomed fl inner max) [] k)

  -- The ids that are dropped, and the test that keeps a record.
  abbrev dropped : PoolInner F → ℕ → List Text
  dropped inner max = insert_keys (doomed fl inner max) []

  abbrev stays : PoolInner F → ℕ → ProxyInfo F → Bool
  stays inner max p = not (contains (dropped inner max) p.id)

  abbrev ordered : PoolInner F → List (ProxyInfo F)
  ordered inner = sort_by (rank_order fl) inner.proxies

  length-dropped :
      (inner : PoolInner F) (max : ℕ)
      → IsIndexed inner
      → length (dropped inner max) ≡ length inner.proxies - max
  unfolding doomed
  length-dropped inner max v =
      let n = length inner.proxies - max in
      let firsts = take n (ordered inner) in
      let apart =
        take-Distinct n (ordered inner)
          (Distinct-sort_by (rank_order fl) id_of inner.proxies v.distinct) in
      omega (
        arith,
        length-insert_keys (map id_of firsts) [] apart (λ k h. refl),
        length-map_ids firsts,
        length-take n (ordered inner),
        length-sort_by (rank_order fl) inner.proxies,
      )

  length-stays :
      (inner : PoolInner F) (max : ℕ)
      → IsIndexed inner
      → length (select (stays inner max) inner.proxies)
        ≡ length inner.proxies - (length inner.proxies - max)
  unfolding doomed
  length-stays inner max v =
      let n = length inner.proxies - max in
      let same = ap length (
        select-ext (stays inner max) (λ p. not (contains (doomed fl inner max) p.id))
          (ordered inner) (λ p m. ap not (contains-doomed inner max p.id))) in
      omega (
        arith,
        length-select-sort_by (rank_order fl) (stays inner max) inner.proxies,
        same,
        length-without n (ordered inner)
            (Distinct-sort_by (rank_order fl) id_of inner.proxies v.distinct),
        length-sort_by (rank_order fl) inner.proxies,
      )

  -- A record whose id is dropped is one of the first of the order.
  dropped_among_first :
      (inner : PoolInner F) (max : ℕ) (p : ProxyInfo F)
      → IsIndexed inner
      → In p inner.proxies
      → contains (doomed fl inner max) p.id ≡ true
      → In p (take (length inner.proxies - max) (ordered inner))
  unfolding doomed
  dropped_among_first inner max p v m h =
      let n = length inner.proxies - max in
      let (q, k, e) = In-contains id_of (take n (ordered inner)) p.id h in
      let same =
        Distinct-In inner.proxies p q v.distinct m
          (sort_by-In (rank_order fl) inner.proxies q (take-In n (ordered inner) q k)) (sym e) in
      subst (λ r. In r (take n (ordered inner))) (sym same) k

  -- A record whose id is not dropped comes behind them.
  stays_behind :
      (inner : PoolInner F) (max : ℕ) (q : ProxyInfo F)
      → In q inner.proxies
      → contains (doomed fl inner max) q.id ≡ false
      → In q (drop (length inner.proxies - max) (ordered inner))
  unfolding doomed
  stays_behind inner max q m h =
      let n = length inner.proxies - max in
      elim (In-take_or_drop n (ordered inner) q (In-sort_by (rank_order fl) inner.proxies q m)) [
        | inl t ↦ absurd (cc (sym h ∙ contains-In id_of (take n (ordered inner)) q t))
        | inr d ↦ d
      ]

  -- A record that the retained pool lacks is dropped.
  gone_is_dropped :
      (inner : PoolInner F) (max : ℕ) (p : ProxyInfo F)
      → In p inner.proxies
      → contains (ids (retain (stays inner max) inner)) p.id ≡ false
      → contains (doomed fl inner max) p.id ≡ true
  gone_is_dropped inner max p m gone = elim (Bool-cases (contains (doomed fl inner max) p.id)) [
    | inl e ↦ e
    | inr e ↦
        let kept =
          In-select (stays inner max) inner.proxies p m
            (ap not (contains-doomed inner max p.id ∙ e)) in
        let there =
          subst (λ ps. contains (map id_of ps) p.id ≡ true)
            (sym (retain-proxies (stays inner max) inner)) (contains-In id_of _ p kept) in
        absurd (cc (sym gone ∙ there))
  ]

  kept_stays :
      (inner : PoolInner F) (max : ℕ) (q : ProxyInfo F)
      → In q (retain (stays inner max) inner).proxies
      → In q inner.proxies × (contains (doomed fl inner max) q.id ≡ false)
  kept_stays inner max q kept =
      let found = subst (In q) (retain-proxies (stays inner max) inner) kept in
      let (m, h) = select-In (stays inner max) inner.proxies q found in
      (m, ground (arith, h, contains-doomed inner max q.id))

  -- A pool within its capacity is left alone. A larger one is cut to exactly that many proxies,
  -- and the number returned is the number removed.
  pub length-enforce_capacity :
      (inner : PoolInner F) (max : ℕ)
      → IsIndexed inner
      → let (after, removed) = enforce_capacity fl inner max in
        (length after.proxies ≡ min (length inner.proxies) max)
        × (length after.proxies + removed ≡ length inner.proxies)
  unfolding enforce_capacity
  length-enforce_capacity inner max v = elim (Bool-cases (leb (length inner.proxies) max)) [
    | inl e ↦ rw e (ground arith, omega arith)
    | inr e ↦
        let kept = ap length (retain-proxies (stays inner max) inner) in
        rw e (
          ground (arith, kept, length-stays inner max v),
          ground (arith, kept, length-stays inner max v, length-dropped inner max v),
        )
  ]

  -- The proxies that are dropped are the ones confirmed last: a proxy that `enforce_capacity`
  -- drops was confirmed no earlier than any that it keeps, and one that was never confirmed is
  -- dropped only if no confirmed one is kept.
  pub enforce_capacity_drops_latest :
      (inner : PoolInner F) (max : ℕ) (p q : ProxyInfo F)
      → IsIndexed inner
      → In p inner.proxies
      → contains (ids (enforce_capacity fl inner max).0) p.id ≡ false
      → In q (enforce_capacity fl inner max).0.proxies
      → NoLater q.last_success p.last_success
  unfolding enforce_capacity
  enforce_capacity_drops_latest inner max p q v m gone kept =
      elim (Bool-cases (leb (length inner.proxies) max)) [
        | inl e ↦ absurd (cc (sym (rw e at gone) ∙ contains-In id_of inner.proxies p m))
        | inr e ↦
            let n = length inner.proxies - max in
            let (k, h) = kept_stays inner max q (rw e at kept) in
            take-drop-NoLater fl n (ordered inner) p q (sort_by-Descending fl inner.proxies)
              (dropped_among_first inner max p v m (gone_is_dropped inner max p m (rw e at gone)))
              (stays_behind inner max q k h)
      ]
