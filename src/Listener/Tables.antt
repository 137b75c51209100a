-- ===== src/Listener/Tables.antt =====
-- The tables of the local proxy: that a key stands once, and what removals and filters leave.
use proxy_switcher.Common.{
  ◌≤◌, ◌≡◌, refl, ap, Bool, false, Option, none, some, List, [], ◌∷◌, map, arith, length,
  if◌then◌else◌, select,
}
use proxy_switcher.Common.Table.{find, remove, put}
use proxy_switcher.Common.Text.{Text, contains, equal_iff}
use proxy_switcher.Listener.State.{UsedProxy, Slot, forget_oldest, vacate}
use proxy_switcher.Pool.Index.{Distinct}

module _ {V : Type 0} where
  abbrev pub keys : List (Text × V) → List Text
  keys = map (λ e. e.0)

  contains-remove :
      (k j : Text) (t : List (Text × V))
      → contains (keys t) j ≡ false
      → contains (keys (remove k t)) j ≡ false
  unfolding remove
  contains-remove k j [] h = refl
  contains-remove k j ((i, v) ∷ t) h = ground (arith, contains-remove k j t)

  remove_absent : (k : Text) (t : List (Text × V)) → contains (keys (remove k t)) k ≡ false
  unfolding remove
  remove_absent k [] = refl
  remove_absent k ((i, v) ∷ t) = ground (arith, remove_absent k t, equal_iff i k, equal_iff k i)

  pub remove-Distinct :
      (k : Text) (t : List (Text × V)) → Distinct (keys t) → Distinct (keys (remove k t))
  unfolding remove
  remove-Distinct k [] d = tt
  remove-Distinct k ((i, v) ∷ t) d =
      ground (arith, remove-Distinct k t d.1, contains-remove k i t d.0)

  pub put-Distinct :
      (k : Text) (v : V) (t : List (Text × V)) → Distinct (keys t) → Distinct (keys (put k v t))
  unfolding put
  put-Distinct k v t d = (remove_absent k t, remove-Distinct k t d)

  contains-select :
      (p : Text × V → Bool) (j : Text) (t : List (Text × V))
      → contains (keys t) j ≡ false
      → contains (keys (select p t)) j ≡ false
  contains-select p j [] h = refl
  contains-select p j (e ∷ t) h = ground (arith, contains-select p j t)

  pub select-Distinct :
      (p : Text × V → Bool) (t : List (Text × V)) → Distinct (keys t) → Distinct (keys (select p t))
  select-Distinct p [] d = tt
  select-Distinct p (e ∷ t) d = ground (arith, select-Distinct p t d.1, contains-select p e.0 t d.0)

  find_absent : (k : Text) (t : List (Text × V)) → contains (keys t) k ≡ false → find k t ≡ none
  unfolding find
  find_absent k [] h = refl
  find_absent k ((i, v) ∷ t) h = ground (arith, find_absent k t, equal_iff i k, equal_iff k i)

  -- Of a table with one entry for a key, what a filter leaves.
  abbrev pub kept : (V → Bool) → Option V → Option V
  kept p none = none
  kept p (some v) = if p v then some v else none

  pub find-select :
      (p : V → Bool) (k : Text) (t : List (Text × V))
      → Distinct (keys t)
      → find k (select (λ e. p e.1) t) ≡ kept p (find k t)
  unfolding find
  find-select p k [] d = refl
  find-select p k ((i, v) ∷ t) d =
      ground (arith, find-select p k t d.1, equal_iff i k, find_absent k t)

pub length-forget_oldest : (us : List UsedProxy) → length (forget_oldest us) ≤ 16
unfolding forget_oldest
length-forget_oldest [] = omega arith
length-forget_oldest (u ∷ us) = ground (arith, length-forget_oldest us)

pub vacate-keys : (id : Text) (slots : List (Text × Slot)) → keys (vacate id slots) ≡ keys slots
unfolding vacate
vacate-keys id [] = refl
vacate-keys id ((k, s) ∷ slots) = ap (◌∷◌ k) (vacate-keys id slots)
