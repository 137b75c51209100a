-- ===== src/Pool/Index.antt =====
-- The id index of the pool, and what it has to agree with: the position of an id in the list.
use mathlib.Core.Option
use proxy_switcher.Common.{
  ℕ, zero, suc, ◌+◌, ◌≡◌, ◌⊎◌, inl, refl, ap, Bool, true, false, ◌||◌, Option, none, some, List, [],
  ◌∷◌, ◌++◌, map, arith, if◌then◌else◌, length, get_elem?, modify, select,
}
use proxy_switcher.Common.Text.{Text, equal, equal_iff, contains}

-- `HashMap<String, usize>`
abbrev pub Index : Type 0
Index = Text → Option ℕ

abbrev pub empty_index : Index
empty_index k = none

-- `index.insert(key, slot)`
abbrev pub insert_at : Text → ℕ → Index → Index
insert_at key slot ix k = if equal k key then some slot else ix k

-- The first place of an id.
unfoldable pub position : Text → List Text → Option ℕ
position k [] = none
position k (x ∷ xs) = if equal k x then some 0 else Option.map suc (position k xs)

-- No id stands twice.
abbrev pub Distinct : List Text → Type 0
Distinct [] = Unit {0}
Distinct (x ∷ xs) = (contains xs x ≡ false) × Distinct xs

equal_comm : (s t : Text) → equal s t ≡ equal t s
equal_comm s t = ground (arith, equal_iff s t, equal_iff t s)

pub position-none_iff :
    (k : Text) (xs : List Text)
    → (position k xs ≡ none) × (contains xs k ≡ false)
      ⊎ ((i : ℕ) × (position k xs ≡ some i) × (contains xs k ≡ true))
unfolding position
position-none_iff k [] = inl (refl, refl)
position-none_iff k (x ∷ xs) = ground (arith, equal_comm k x, position-none_iff k xs)

pub position-append :
    (k x : Text) (xs : List Text)
    → position k (xs ++ x ∷ [])
      ≡ (if contains xs k then position k xs else if equal k x then some (length xs) else none)
unfolding position
position-append k x [] = refl
position-append k x (y ∷ xs) = ground (arith, position-append k x xs)

pub get_elem?-position :
    (k : Text) (xs : List Text) (i : ℕ) → position k xs ≡ some i → get_elem? xs i ≡ some k
unfolding position
get_elem?-position k [] i e = cc
get_elem?-position k (x ∷ xs) zero e = ground (arith, equal_iff k x)
get_elem?-position k (x ∷ xs) (suc i) e = ground (arith, get_elem?-position k xs i)

pub contains_of_get_elem? :
    (k : Text) (xs : List Text) (i : ℕ) → get_elem? xs i ≡ some k → contains xs k ≡ true
contains_of_get_elem? k [] i e = cc
contains_of_get_elem? k (x ∷ xs) zero e = ground (arith, equal_iff k x)
contains_of_get_elem? k (x ∷ xs) (suc i) e = ground (arith, contains_of_get_elem? k xs i)

pub position-get_elem? :
    (k : Text) (xs : List Text) (i : ℕ)
    → Distinct xs
    → get_elem? xs i ≡ some k
    → position k xs ≡ some i
unfolding position
position-get_elem? k [] i d e = cc
position-get_elem? k (x ∷ xs) zero d e = ground (arith, equal_iff k x)
position-get_elem? k (x ∷ xs) (suc i) d e =
    ground (arith, equal_iff k x, contains_of_get_elem? k xs i e, position-get_elem? k xs i d.1 e)

pub contains-append :
    (k x : Text) (xs : List Text) → contains (xs ++ x ∷ []) k ≡ (contains xs k || equal k x)
contains-append k x [] = ground arith
contains-append k x (y ∷ xs) = ground (arith, contains-append k x xs)

pub Distinct-append :
    (x : Text) (xs : List Text) → Distinct xs → contains xs x ≡ false → Distinct (xs ++ x ∷ [])
Distinct-append x [] d h = (refl, tt)
Distinct-append x (y ∷ xs) d h =
    ground (arith, contains-append y x xs, equal_comm x y, Distinct-append x xs d.1)

-- The loop of `retain`: what the predicate keeps, and each kept key under its new place.
module _ {A : Type 0} (key : A → Text) where
  unfoldable pub retain_from : (A → Bool) → ℕ → Index → List A → List A × Index
  retain_from keep pos ix [] = ([], ix)
  retain_from keep pos ix (p ∷ ps) = elim (keep p) [
    | true ↦
        let rest = retain_from keep (pos + 1) (insert_at (key p) pos ix) ps in (p ∷ rest.0, rest.1)
    | false ↦ retain_from keep pos ix ps
  ]

  pub retain_from-kept :
      (keep : A → Bool) (pos : ℕ) (ix : Index) (ps : List A)
      → (retain_from keep pos ix ps).0 ≡ select keep ps
  unfolding retain_from
  retain_from-kept keep pos ix [] = refl
  retain_from-kept keep pos ix (p ∷ ps) = ground (
    arith,
    retain_from-kept keep (pos + 1) (insert_at (key p) pos ix) ps,
    retain_from-kept keep pos ix ps,
  )

  pub contains-select :
      (k : Text) (keep : A → Bool) (ps : List A)
      → contains (map key ps) k ≡ false
      → contains (map key (select keep ps)) k ≡ false
  contains-select k keep [] h = refl
  contains-select k keep (p ∷ ps) h = ground (arith, contains-select k keep ps)

  pub Distinct-select :
      (keep : A → Bool) (ps : List A) → Distinct (map key ps) → Distinct (map key (select keep ps))
  Distinct-select keep [] d = tt
  Distinct-select keep (p ∷ ps) d =
      ground (arith, contains-select (key p) keep ps, Distinct-select keep ps d.1)

  -- A place in the rest, behind `pos` entries; an id that is not there keeps its old entry.
  abbrev behind : ℕ → Index → Text → Option ℕ → Option ℕ
  behind pos ix k none = ix k
  behind pos ix k (some i) = some (pos + i)

  pub retain_from-index :
      (keep : A → Bool) (pos : ℕ) (ix : Index) (ps : List A) (k : Text)
      → Distinct (map key ps)
      → (retain_from keep pos ix ps).1 k ≡ behind pos ix k (position k (map key (select keep ps)))
  unfolding retain_from position
  retain_from-index keep pos ix [] k d = refl
  retain_from-index keep pos ix (p ∷ ps) k d = ground (
    arith,
    retain_from-index keep (pos + 1) (insert_at (key p) pos ix) ps k d.1,
    retain_from-index keep pos ix ps k d.1,
    contains-select (key p) keep ps d.0,
    position-none_iff k (map key (select keep ps)),
    equal_iff k (key p),
  )

  pub keys-modify :
      (f : A → A) (ps : List A) (i : ℕ)
      → ((a : A) → key (f a) ≡ key a)
      → map key (modify ps i f) ≡ map key ps
  keys-modify f [] i h = refl
  keys-modify f (p ∷ ps) zero h = ap (λ k. k ∷ map key ps) (h p)
  keys-modify f (p ∷ ps) (suc i) h = ap (◌∷◌ (key p)) (keys-modify f ps i h)
