-- ===== src/Pool/Maximum.antt =====
-- What `max_by` finds.
use Prim.Native.Nat.{Ordering}
use proxy_switcher.Common.{
  ◌≡◌, inl, inr, refl, sym, ap, subst, true, false, none, some, List, [], ◌∷◌, if◌then◌else◌,
  Bool-cases,
}
use proxy_switcher.Common.Member.{In}
use proxy_switcher.Pool.Discovery.{not_greater}
use proxy_switcher.Pool.Select.{max_from, max_by}

module _ {A : Type 0} (cmp : A → A → Ordering) where
  -- No greater, in the order that is compared by.
  abbrev pub AtMost : A → A → Type 0
  AtMost a b = not_greater (cmp a b) ≡ true

  abbrev pub AllAtMost : List A → A → Type 0
  AllAtMost xs m = (a : A) → In a xs → AtMost a m

  max_from-In : (best : A) (xs : List A) → In (max_from cmp best xs) (best ∷ xs)
  unfolding max_from
  max_from-In best [] = inl refl
  max_from-In best (x ∷ xs) = elim (Bool-cases (not_greater (cmp best x))) [
    | inl e ↦
        subst (λ y. In y (best ∷ x ∷ xs))
          (sym (ap (λ b. max_from cmp (if b then x else best) xs) e)) (inr (max_from-In x xs))
    | inr e ↦
        subst (λ y. In y (best ∷ x ∷ xs))
          (sym (ap (λ b. max_from cmp (if b then x else best) xs) e))
          (elim (max_from-In best xs) [ inl f ↦ inl f | inr m ↦ inr (inr m) ])
  ]

  some_is : {a b : A} → some a ≡ some b → a ≡ b
  some_is e = cc

  pub max_by-In : (xs : List A) (m : A) → max_by cmp xs ≡ some m → In m xs
  unfolding max_by
  max_by-In [] m e = cc
  max_by-In (x ∷ xs) m e = subst (λ a. In a (x ∷ xs)) (some_is e) (max_from-In x xs)

  pub max_by-none : (xs : List A) → max_by cmp xs ≡ none → xs ≡ []
  unfolding max_by
  max_by-none [] e = refl
  max_by-none (x ∷ xs) e = cc

  -- The order is total and transitive, as it is where no score is a NaN.
  module _ (total : (a b : A) → not_greater (cmp a b) ≡ false → AtMost b a)
      (trans : (a b c : A) → AtMost a b → AtMost b c → AtMost a c) where
    reflexive : (a : A) → AtMost a a
    reflexive a = elim (Bool-cases (not_greater (cmp a a))) [ inl e ↦ e | inr e ↦ total a a e ]

    max_from-AtMost :
        (best : A) (xs : List A)
        → AtMost best (max_from cmp best xs) × AllAtMost xs (max_from cmp best xs)
    unfolding max_from
    max_from-AtMost best [] = (reflexive best, λ a m. absurd m)
    max_from-AtMost best (x ∷ xs) = elim (Bool-cases (not_greater (cmp best x))) [
      | inl e ↦
          let (up, all) = max_from-AtMost x xs in
          rw e (
            trans best x _ e up,
            λ a m. elim m [
              | inl f ↦ subst (λ y. AtMost y (max_from cmp x xs)) (sym f) up
              | inr k ↦ all a k
            ],
          )
      | inr e ↦
          let (up, all) = max_from-AtMost best xs in
          rw e (
            up,
            λ a m. elim m [
              | inl f ↦
                  subst (λ y. AtMost y (max_from cmp best xs)) (sym f)
                    (trans x best _ (total best x e) up)
              | inr k ↦ all a k
            ],
          )
    ]

    pub max_by-AllAtMost : (xs : List A) (m : A) → max_by cmp xs ≡ some m → AllAtMost xs m
    unfolding max_by
    max_by-AllAtMost [] m e = cc
    max_by-AllAtMost (x ∷ xs) m e =
        let (up, all) = max_from-AtMost x xs in
        subst (λ y. AllAtMost (x ∷ xs) y) (some_is e)
          (λ a k. elim k [
            | inl f ↦ subst (λ y. AtMost y (max_from cmp x xs)) (sym f) up
            | inr r ↦ all a r
          ])
