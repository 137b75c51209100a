-- ===== src/Common/Member.antt =====
-- Membership by recursion on the list, and what selections keep of it.
use Prim.Native.Nat.{ℕ, zero, suc}
use mathlib.Core.Bool.{Bool, true}
use mathlib.Core.List.{List, [], ◌∷◌, map}
use mathlib.Core.Logic.{◌⊎◌, inl, inr}
use mathlib.Core.Option.{some}
use mathlib.Core.Path.{◌≡◌, refl, sym, ap, ◌∙◌}
use native.Mathlib.Omega.{arith}
use proxy_switcher.Common.Lists.{get_elem?, take, drop, select}
use proxy_switcher.Common.Tests.{Bool-cases}
use proxy_switcher.Common.Text.{Text, equal, equal_iff, contains}

module _ {A : Type 0} where
  abbrev pub In : A → List A → Type 0
  In a [] = ⊥
  In a (x ∷ xs) = (a ≡ x) ⊎ In a xs

  pub In-get_elem? : (xs : List A) (i : ℕ) (a : A) → get_elem? xs i ≡ some a → In a xs
  In-get_elem? [] i a e = cc
  In-get_elem? (x ∷ xs) zero a e = inl (ground arith)
  In-get_elem? (x ∷ xs) (suc i) a e = inr (In-get_elem? xs i a e)

  pub In-select : (p : A → Bool) (xs : List A) (a : A) → In a xs → p a ≡ true → In a (select p xs)
  In-select p [] a m h = m
  In-select p (x ∷ xs) a (inl e) h = rw (ap p (sym e) ∙ h) (inl e)
  In-select p (x ∷ xs) a (inr m) h = elim (Bool-cases (p x)) [
    | inl t ↦ rw t (inr (In-select p xs a m h))
    | inr f ↦ rw f (In-select p xs a m h)
  ]

  pub select-In : (p : A → Bool) (xs : List A) (a : A) → In a (select p xs) → In a xs × (p a ≡ true)
  select-In p [] a m = absurd m
  select-In p (x ∷ xs) a m = elim (Bool-cases (p x)) [
    | inl t ↦ (elim (rw t at m) [
      | inl e ↦ (inl e, ap p e ∙ t)
      | inr m' ↦ let (m, h) = select-In p xs a m' in (inr m, h)
    ])
    | inr f ↦ let (m, h) = select-In p xs a (rw f at m) in (inr m, h)
  ]

  pub In-take_or_drop :
      (n : ℕ) (xs : List A) (a : A) → In a xs → In a (take n xs) ⊎ In a (drop n xs)
  In-take_or_drop zero xs a m = inr m
  In-take_or_drop (suc n) [] a m = inr m
  In-take_or_drop (suc n) (x ∷ xs) a (inl e) = inl (inl e)
  In-take_or_drop (suc n) (x ∷ xs) a (inr m) = elim (In-take_or_drop n xs a m) [
    | inl t ↦ inl (inr t)
    | inr d ↦ inr d
  ]

  pub take-In : (n : ℕ) (xs : List A) (a : A) → In a (take n xs) → In a xs
  take-In zero xs a m = absurd m
  take-In (suc n) [] a m = m
  take-In (suc n) (x ∷ xs) a (inl e) = inl e
  take-In (suc n) (x ∷ xs) a (inr m) = inr (take-In n xs a m)

  pub drop-In : (n : ℕ) (xs : List A) (a : A) → In a (drop n xs) → In a xs
  drop-In zero xs a m = m
  drop-In (suc n) [] a m = m
  drop-In (suc n) (x ∷ xs) a m = inr (drop-In n xs a m)

module _ {A : Type 0} (key : A → Text) where
  pub contains-In : (xs : List A) (a : A) → In a xs → contains (map key xs) (key a) ≡ true
  contains-In [] a m = absurd m
  contains-In (x ∷ xs) a (inl e) = ground (arith, equal_iff (key a) (key x), ap key e)
  contains-In (x ∷ xs) a (inr m) = ground (arith, contains-In xs a m)

  pub In-contains :
      (xs : List A) (k : Text) → contains (map key xs) k ≡ true → (a : A) × In a xs × (key a ≡ k)
  In-contains [] k h = cc
  In-contains (x ∷ xs) k h = elim (Bool-cases (equal k (key x))) [
    | inl e ↦ (x, inl refl, sym ((equal_iff k (key x)).0 e))
    | inr e ↦ let (a, m, f) = In-contains xs k (rw e at h) in (a, inr m, f)
  ]

module _ {A : Type 0} where
  pub select-ext :
      (p q : A → Bool) (xs : List A) → ((a : A) → In a xs → p a ≡ q a) → select p xs ≡ select q xs
  select-ext p q [] h = refl
  select-ext p q (x ∷ xs) h =
      let rest = select-ext p q xs (λ a m. h a (inr m)) in ground (arith, rest, h x (inl refl))

  pub select-all : (p : A → Bool) (xs : List A) → ((a : A) → p a ≡ true) → select p xs ≡ xs
  select-all p [] h = refl
  select-all p (x ∷ xs) h = rw (h x) (ap (◌∷◌ x) (select-all p xs h))
