-- ===== src/Common/Table.antt =====
-- A `HashMap` from texts, as a list of entries; a removal takes every entry of the key.
use mathlib.Core.List.{List, [], ◌∷◌}
use mathlib.Core.Option.{Option, none, some}
use mathlib.Core.Path.{◌≡◌}
use native.Mathlib.Omega.{arith}
use proxy_switcher.Common.Tests.{if◌then◌else◌}
use proxy_switcher.Common.Text.{Text, equal, equal_iff, equal_refl}

module _ {V : Type 0} where
  -- `table.get(key)`
  unfoldable pub find : Text → List (Text × V) → Option V
  find k [] = none
  find k ((j, v) ∷ t) = if equal j k then some v else find k t

  -- `table.remove(key)`, what is left
  unfoldable pub remove : Text → List (Text × V) → List (Text × V)
  remove k [] = []
  remove k ((j, v) ∷ t) = if equal j k then remove k t else (j, v) ∷ remove k t

  -- `table.insert(key, value)`
  unfoldable pub put : Text → V → List (Text × V) → List (Text × V)
  unfolding remove
  put k v t = (k, v) ∷ remove k t

  pub find-remove :
      (k j : Text) (t : List (Text × V))
      → find j (remove k t) ≡ (if equal k j then none else find j t)
  unfolding find remove
  find-remove k j [] = ground arith
  find-remove k j ((i, v) ∷ t) =
      ground (arith, equal_iff k j, equal_iff i k, equal_iff i j, find-remove k j t)

  pub remove_again : (k : Text) (t : List (Text × V)) → remove k (remove k t) ≡ remove k t
  unfolding remove
  remove_again k [] = ground arith
  remove_again k ((j, v) ∷ t) = ground (arith, remove_again k t)

  pub find-put :
      (k j : Text) (v : V) (t : List (Text × V))
      → find j (put k v t) ≡ (if equal k j then some v else find j t)
  unfolding find put
  find-put k j v t = ground (arith, find-remove k j t)

  pub find-put_self : (k : Text) (v : V) (t : List (Text × V)) → find k (put k v t) ≡ some v
  find-put_self k v t = simp (find-put, equal_refl)

  pub find-remove_self : (k : Text) (t : List (Text × V)) → find k (remove k t) ≡ none
  find-remove_self k t = simp (find-remove, equal_refl)
