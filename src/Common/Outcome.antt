-- ===== src/Common/Outcome.antt =====
-- What a run of fallible code gives: a value, an error of the code's own, or a panic. Indexing and
-- slicing panic out of range, so a theorem that a parser does not panic is about its bounds checks.
use Prim.Native.Nat.{ℕ, ◌*◌, ◌+◌, ◌<◌, ◌≤◌}
use mathlib.Core.List.{List}
use mathlib.Core.Bool.{Bool, true, false}
use mathlib.Core.Logic.{◌≢◌}
use mathlib.Core.Option.{none, some}
use mathlib.Core.Path.{◌≡◌, refl, subst}
use native.Mathlib.Omega.{arith}
use proxy_switcher.Common.Lists.{length, get_elem?, drop, get_elem?-lt}
use proxy_switcher.Common.Tests.{leb, le→leb, if◌then◌else◌}

pub data Outcome (E A : Type 0) : Type 0 where
  ok : A → Outcome E A
  err : E → Outcome E A
  panic : Outcome E A

infixl 5 ◌>>=◌
unfoldable pub ◌>>=◌ : {E A B : Type 0} → Outcome E A → (A → Outcome E B) → Outcome E B
ok a >>= f = f a
err e >>= f = err e
panic >>= f = panic

abbrev pub Bytes : Type 0
Bytes = List ℕ

ok-injective : {E A : Type 0} {a b : A} → ◌≡◌ {A = Outcome E A} (ok a) (ok b) → a ≡ b
ok-injective q = cc

module _ {E : Type 0} where
  -- `data[i]`
  unfoldable pub byte_at : Bytes → ℕ → Outcome E ℕ
  byte_at d i = elim (get_elem? d i) [ none ↦ panic | some b ↦ ok b ]

  -- `&data[n..]`
  unfoldable pub slice_from : Bytes → ℕ → Outcome E Bytes
  slice_from d n = if leb n (length d) then ok (drop n d) else panic

  -- `u16::from_be_bytes([data[i], data[i + 1]])`
  unfoldable pub be16_at : Bytes → ℕ → Outcome E ℕ
  unfolding byte_at ◌>>=◌
  be16_at d i = do hi ← byte_at d i; lo ← byte_at d (i + 1); ok (hi * 256 + lo)

  -- `u32::from_be_bytes([data[i], .., data[i + 3]])`
  unfoldable pub be32_at : Bytes → ℕ → Outcome E ℕ
  unfolding be16_at
  be32_at d i = do hi ← be16_at d i; lo ← be16_at d (i + 2); ok (hi * 65536 + lo)

-- The run does not panic, and a value that it returns has the property.
pub data Safe {E A : Type 0} (P : A → Type 0) : Outcome E A → Type 0 where
  returns : {a : A} → P a → Safe P (ok a)
  fails : {e : E} → Safe P (err e)

module _ {E A : Type 0} {P : A → Type 0} where
  pub Safe-ne-panic : {r : Outcome E A} → Safe P r → r ≢ panic
  Safe-ne-panic (returns p) q = cc
  Safe-ne-panic fails q = cc

  pub Safe-ok : {r : Outcome E A} {a : A} → Safe P r → r ≡ ok a → P a
  Safe-ok (returns p) q = subst P (ok-injective q) p
  Safe-ok fails q = cc

  pub Safe-if :
      (b : Bool) (m n : Outcome E A)
      → (b ≡ true → Safe P m)
      → (b ≡ false → Safe P n)
      → Safe P (if b then m else n)
  Safe-if true m n km kn = km refl
  Safe-if false m n km kn = kn refl

  pub Safe-map : {Q : A → Type 0} {r : Outcome E A} → ((a : A) → P a → Q a) → Safe P r → Safe Q r
  Safe-map k (returns {a} p) = returns (k a p)
  Safe-map k fails = fails

module _ {E A B : Type 0} {P : A → Type 0} {Q : B → Type 0} where
  pub Safe-bind :
      (m : Outcome E A) (f : A → Outcome E B)
      → Safe P m
      → ((a : A) → P a → Safe Q (f a))
      → Safe Q (m >>= f)
  unfolding ◌>>=◌
  Safe-bind _ f (returns {a} p) k = k a p
  Safe-bind _ f fails k = fails

-- Nothing is known of the value.
abbrev pub Any : {A : Type 0} → A → Type 0
Any a = Unit

module _ {E : Type 0} where
  pub byte_at-Safe : (d : Bytes) (i : ℕ) → i < length d → Safe {E = E} Any (byte_at d i)
  unfolding byte_at
  byte_at-Safe d i h = let (b, e) = get_elem?-lt d i h in rw (e, byte_at) (returns tt)

  pub slice_from-Safe :
      (d : Bytes) (n : ℕ) → n ≤ length d → Safe {E = E} (λ r. r ≡ drop n d) (slice_from d n)
  unfolding slice_from
  slice_from-Safe d n h = rw (le→leb n (length d) h) (returns refl)

  pub be16_at-Safe : (d : Bytes) (i : ℕ) → i + 1 < length d → Safe {E = E} Any (be16_at d i)
  unfolding be16_at
  be16_at-Safe d i h =
      Safe-bind _ _ (byte_at-Safe d i (omega arith))
        λ hi _. Safe-bind _ _ (byte_at-Safe d (i + 1) h) λ lo _. returns tt

  pub be32_at-Safe : (d : Bytes) (i : ℕ) → i + 3 < length d → Safe {E = E} Any (be32_at d i)
  unfolding be32_at
  be32_at-Safe d i h =
      Safe-bind _ _ (be16_at-Safe d i (omega arith))
        λ hi _. Safe-bind _ _ (be16_at-Safe d (i + 2) (omega arith)) λ lo _. returns tt
