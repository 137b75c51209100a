-- ===== src/Credentials/Names/Written.antt =====
-- Parameters that are written in a name are read back from it.
use proxy_switcher.Common.{
  ◌≡◌, refl, sym, ap, ◌∙◌, true, false, not, none, some, List, [], ◌∷◌, ◌++◌, arith, any, select,
  ◌==◌, is_empty,
}
use mathlib.Core.List.{append-nil, append_assoc}
use proxy_switcher.Common.Text.{Text, codes, split}
use proxy_switcher.Credentials.Names.{is_key, read_part, read_parts, parse_parameters}

-- A part of a name: not empty, and without a dash.
abbrev pub IsPart : Text → Type 0
IsPart t = (any (λ c. c == b'-') t ≡ false) × (is_empty t ≡ false)

abbrev pub AreParts : List Text → Type 0
AreParts [] = Unit {0}
AreParts (t ∷ ts) = IsPart t × AreParts ts

abbrev pub join_dashes : List Text → Text
join_dashes [] = []
join_dashes (t ∷ []) = t
join_dashes (t ∷ u ∷ ts) = t ++ b'-' ∷ join_dashes (u ∷ ts)

split_none : (t : Text) → any (λ c. c == b'-') t ≡ false → split b'-' t ≡ t ∷ []
unfolding split
split_none [] h = refl
split_none (c ∷ t) h = ground (arith, split_none t)

split-append :
    (t s : Text) → any (λ c. c == b'-') t ≡ false → split b'-' (t ++ b'-' ∷ s) ≡ t ∷ split b'-' s
unfolding split
split-append [] s h = refl
split-append (c ∷ t) s h = ground (arith, split-append t s)

parts_of :
    (ts : List Text)
    → AreParts ts
    → select (λ p. not (is_empty p)) (split b'-' (join_dashes ts)) ≡ ts
parts_of [] a = unfold split in refl
parts_of (t ∷ []) a = rw (split_none t a.0.0) (rw a.0.1 refl)
parts_of (t ∷ u ∷ ts) a =
    rw (split-append t (join_dashes (u ∷ ts)) a.0.0) (rw a.0.1 (ap (◌∷◌ t) (parts_of (u ∷ ts) a.1)))

-- The parts of a list of parameters.
abbrev pub written : List (Text × Text) → List Text
written [] = []
written ((key, value) ∷ ps) = key ∷ value ∷ written ps

-- Keys are known ones, and a value is not one of them.
abbrev pub AreParameters : List (Text × Text) → Type 0
AreParameters [] = Unit {0}
AreParameters ((key, value) ∷ ps) =
    (is_key key ≡ true) × (is_key value ≡ false) × IsPart key × IsPart value × AreParameters ps

written-AreParts : (ps : List (Text × Text)) → AreParameters ps → AreParts (written ps)
written-AreParts [] a = tt
written-AreParts ((key, value) ∷ ps) (k, v, p, q, a) = (p, (q, written-AreParts ps a))

read_part-key :
    (done : List (Text × Text)) (key : Text)
    → is_key key ≡ true
    → read_part (done, none) key ≡ (done, some key)
unfolding read_part
read_part-key done key k = rw k refl

read_part-value :
    (done : List (Text × Text)) (key value : Text)
    → is_key value ≡ false
    → read_part (done, some key) value ≡ (done ++ (key, value) ∷ [], none)
unfolding read_part
read_part-value done key value v = rw v refl

read_parts-written :
    (ps done : List (Text × Text))
    → AreParameters ps
    → read_parts (written ps) (done, none) ≡ done ++ ps
unfolding read_parts
read_parts-written [] done a = sym (append-nil done)
read_parts-written ((key, value) ∷ ps) done (k, v, _, _, a) =
    ap (λ s. read_parts (value ∷ written ps) s) (read_part-key done key k)
    ∙ ap (λ s. read_parts (written ps) s) (read_part-value done key value v)
    ∙ read_parts-written ps (done ++ (key, value) ∷ []) a
    ∙ append_assoc done ((key, value) ∷ []) ps

-- Parameters with known keys, and with values that carry no dash and are no keys, are read back as
-- they are written in the tail of a name.
pub parse_parameters-written :
    (ps : List (Text × Text)) → AreParameters ps → parse_parameters (join_dashes (written ps)) ≡ ps
unfolding parse_parameters
parse_parameters-written ps a =
    rw (parts_of (written ps) (written-AreParts ps a)) (read_parts-written ps [] a)

-- A value with a dash does not stay with its key: what stands behind the dash is a parameter of
-- its own, a session.
pub dashed_value_splits :
    (key value rest : Text)
    → is_key key ≡ true
    → is_key value ≡ false
    → is_key rest ≡ false
    → AreParts (key ∷ value ∷ rest ∷ [])
    → parse_parameters (join_dashes (key ∷ value ∷ rest ∷ []))
      ≡ (key, value) ∷ (codes "session", rest) ∷ []
unfolding parse_parameters read_parts read_part
dashed_value_splits key value rest k v r a =
    rw (parts_of (key ∷ value ∷ rest ∷ []) a) (rw (k, v, r) refl)
