-- ===== src/Pool/Sorting.antt =====
-- `sort_by` rearranges: it keeps the entries, their number and their ids.
use Prim.Native.Nat.{Ordering}
use proxy_switcher.Common.{
  suc, ◌≡◌, inl, inr, refl, ap, ◌∙◌, Bool, ◌||◌, List, [], ◌∷◌, map, arith, length, select,
  Bool-cases,
}
use proxy_switcher.Common.Member.{In}
use proxy_switcher.Common.Text.{Text, equal, equal_iff, contains}
use proxy_switcher.Pool.Discovery.{not_greater, insert_sorted, sort_by}
use proxy_switcher.Pool.Index.{Distinct}

module _ {A : Type 0} (cmp : A → A → Ordering) where
  In-insert_sorted : (x : A) (ys : List A) (a : A) → In a (x ∷ ys) → In a (insert_sorted cmp x ys)
  unfolding insert_sorted
  In-insert_sorted x [] a m = m
  In-insert_sorted x (y ∷ ys) a m = elim (Bool-cases (not_greater (cmp x y))) [
    | inl e ↦ rw e m
    | inr e ↦ rw e (elim m [
      | inl f ↦ inr (In-insert_sorted x ys a (inl f))
      | inr (inl f) ↦ inl f
      | inr (inr r) ↦ inr (In-insert_sorted x ys a (inr r))
    ])
  ]

  pub In-sort_by : (xs : List A) (a : A) → In a xs → In a (sort_by cmp xs)
  unfolding sort_by
  In-sort_by [] a m = m
  In-sort_by (x ∷ xs) a (inl e) = In-insert_sorted x (sort_by cmp xs) a (inl e)
  In-sort_by (x ∷ xs) a (inr m) = In-insert_sorted x (sort_by cmp xs) a (inr (In-sort_by xs a m))

  insert_sorted-In : (x : A) (ys : List A) (a : A) → In a (insert_sorted cmp x ys) → In a (x ∷ ys)
  unfolding insert_sorted
  insert_sorted-In x [] a m = m
  insert_sorted-In x (y ∷ ys) a m = elim (Bool-cases (not_greater (cmp x y))) [
    | inl e ↦ rw e at m
    | inr e ↦ (elim (rw e at m) [
      | inl f ↦ inr (inl f)
      | inr r ↦ (elim (insert_sorted-In x ys a r) [ inl f ↦ inl f | inr k ↦ inr (inr k) ])
    ])
  ]

  pub sort_by-In : (xs : List A) (a : A) → In a (sort_by cmp xs) → In a xs
  unfolding sort_by
  sort_by-In [] a m = m
  sort_by-In (x ∷ xs) a m = elim (insert_sorted-In x (sort_by cmp xs) a m) [
    | inl e ↦ inl e
    | inr r ↦ inr (sort_by-In xs a r)
  ]

  length-select-insert_sorted :
      (p : A → Bool) (x : A) (ys : List A)
      → length (select p (insert_sorted cmp x ys)) ≡ length (select p (x ∷ ys))
  unfolding insert_sorted
  length-select-insert_sorted p x [] = refl
  length-select-insert_sorted p x (y ∷ ys) = ground (arith, length-select-insert_sorted p x ys)

  pub length-select-sort_by :
      (p : A → Bool) (xs : List A) → length (select p (sort_by cmp xs)) ≡ length (select p xs)
  unfolding sort_by
  length-select-sort_by p [] = refl
  length-select-sort_by p (x ∷ xs) =
      length-select-insert_sorted p x (sort_by cmp xs) ∙ ground (arith, length-select-sort_by p xs)

  length-insert_sorted : (x : A) (ys : List A) → length (insert_sorted cmp x ys) ≡ suc (length ys)
  unfolding insert_sorted
  length-insert_sorted x [] = refl
  length-insert_sorted x (y ∷ ys) = ground (arith, length-insert_sorted x ys)

  pub length-sort_by : (xs : List A) → length (sort_by cmp xs) ≡ length xs
  unfolding sort_by
  length-sort_by [] = refl
  length-sort_by (x ∷ xs) = length-insert_sorted x (sort_by cmp xs) ∙ ap suc (length-sort_by xs)

  module _ (key : A → Text) where
    contains-insert_sorted :
        (k : Text) (x : A) (ys : List A)
        → contains (map key (insert_sorted cmp x ys)) k ≡ contains (map key (x ∷ ys)) k
    unfolding insert_sorted
    contains-insert_sorted k x [] = refl
    contains-insert_sorted k x (y ∷ ys) = ground (arith, contains-insert_sorted k x ys)

    Distinct-insert_sorted :
        (x : A) (ys : List A)
        → Distinct (map key (x ∷ ys))
        → Distinct (map key (insert_sorted cmp x ys))
    unfolding insert_sorted
    Distinct-insert_sorted x [] d = d
    Distinct-insert_sorted x (y ∷ ys) d = ground (
      arith,
      contains-insert_sorted (key y) x ys,
      Distinct-insert_sorted x ys,
      equal_iff (key x) (key y),
      equal_iff (key y) (key x),
    )

    contains-sort_by :
        (k : Text) (xs : List A) → contains (map key (sort_by cmp xs)) k ≡ contains (map key xs) k
    unfolding sort_by
    contains-sort_by k [] = refl
    contains-sort_by k (x ∷ xs) =
        contains-insert_sorted k x (sort_by cmp xs)
        ∙ ap (λ b. equal k (key x) || b) (contains-sort_by k xs)

    pub Distinct-sort_by :
        (xs : List A) → Distinct (map key xs) → Distinct (map key (sort_by cmp xs))
    unfolding sort_by
    Distinct-sort_by [] d = tt
    Distinct-sort_by (x ∷ xs) d =
        Distinct-insert_sorted x (sort_by cmp xs)
          (contains-sort_by (key x) xs ∙ d.0, Distinct-sort_by xs d.1)
