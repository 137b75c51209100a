-- ===== src/Common/Text.antt =====
-- Text as its code points, with the functions of `str` that the program uses.
use Prim.Native.Char.{code}
use Prim.Native.Nat.{ℕ, ◌+◌, ◌-◌, ◌*◌, ◌≤◌}
use Prim.Native.String.{String}
use mathlib.Core.Bool.{Bool, true, false, ◌&&◌, ◌||◌}
use mathlib.Core.List.{List, [], ◌∷◌, ◌++◌, map}
use mathlib.Core.Logic.{◌↔◌, inl, inr}
use mathlib.Core.Option
use mathlib.Core.Option.{Option, none, some}
use mathlib.Core.Path.{◌≡◌, refl, ap, ◌∙◌}
use native.Mathlib.Omega.{arith}
use proxy_switcher.Common.Lists.{length, length-append, any}
use proxy_switcher.Common.Tests.{leb, ◌==◌, if◌then◌else◌, Bool-cases}

abbrev pub Text : Type 0
Text = List ℕ

-- The code points of a literal.
abbrev pub codes : String → Text
codes String.[] = []
codes (String.◌∷◌ c s) = code c ∷ codes s

unfoldable pub equal : Text → Text → Bool
equal [] [] = true
equal [] (d ∷ t) = false
equal (c ∷ s) [] = false
equal (c ∷ s) (d ∷ t) = equal s t && c == d

pub equal_iff : (s t : Text) → (equal s t ≡ true) ↔ (s ≡ t)
unfolding equal
equal_iff (x ∷ s) (y ∷ t) = ground (arith, equal_iff s t)
equal_iff _ _ = ground arith

pub equal_refl : (s : Text) → equal s s ≡ true
equal_refl s = (equal_iff s s).1 refl

-- `set.contains`, the set being a list.
abbrev pub contains : List Text → Text → Bool
contains xs s = any (equal s) xs

-- The code points with the property White_Space.
unfoldable pub is_whitespace : ℕ → Bool
is_whitespace c =
    leb 9 c && leb c 13
    || c == 32
    || c == 0x85
    || c == 0xa0
    || c == 0x1680
    || leb 0x2000 c && leb c 0x200a
    || c == 0x2028
    || c == 0x2029
    || c == 0x202f
    || c == 0x205f
    || c == 0x3000

-- `trim_start_matches` and `trim_end_matches` for the characters that pass a test.
unfoldable pub trim_start_by : (ℕ → Bool) → Text → Text
trim_start_by p [] = []
trim_start_by p (c ∷ s) = if p c then trim_start_by p s else c ∷ s

-- What is kept of a character in front of a trimmed rest.
abbrev pub keep_front : Bool → ℕ → Text → Text
keep_front dropped c (x ∷ s) = c ∷ x ∷ s
keep_front true c [] = []
keep_front false c [] = c ∷ []

unfoldable pub trim_end_by : (ℕ → Bool) → Text → Text
trim_end_by p [] = []
trim_end_by p (c ∷ s) = keep_front (p c) c (trim_end_by p s)

unfoldable pub trim : Text → Text
unfolding trim_start_by trim_end_by is_whitespace
trim s = trim_end_by is_whitespace (trim_start_by is_whitespace s)

unfoldable pub to_lower : ℕ → ℕ
to_lower c = if leb b'A' c && leb c b'Z' then c + 32 else c

-- `to_ascii_lowercase`
unfoldable pub lowercase : Text → Text
unfolding to_lower
lowercase = map to_lower

-- `strip_prefix(p)`
unfoldable pub strip_prefix : Text → Text → Option Text
strip_prefix [] s = some s
strip_prefix (p ∷ ps) [] = none
strip_prefix (p ∷ ps) (c ∷ s) = if p == c then strip_prefix ps s else none

-- Whether a text stands in front of another, or somewhere inside it.
abbrev pub is_front : Option Text → Bool
is_front none = false
is_front (some rest) = true

unfoldable pub starts_with : Text → Text → Bool
unfolding strip_prefix
starts_with p s = is_front (strip_prefix p s)

unfoldable pub has_text : Text → Text → Bool
unfolding starts_with
has_text needle [] = starts_with needle []
has_text needle (c ∷ s) = starts_with needle (c ∷ s) || has_text needle s

-- `split_once` of a separator that is a text.
unfoldable pub split_once_text : Text → Text → Option (Text × Text)
unfolding strip_prefix
split_once_text sep [] = Option.map (λ (rest : Text). ([], rest)) (strip_prefix sep [])
split_once_text sep (c ∷ s) =
    let later = Option.map (λ (p : Text × Text). (c ∷ p.0, p.1)) (split_once_text sep s) in
    elim (strip_prefix sep (c ∷ s)) [ none ↦ later | some rest ↦ some ([], rest) ]

-- `strip_suffix(t)`: what stands in front of it.
unfoldable pub strip_suffix : Text → Text → Option Text
strip_suffix t [] = if equal [] t then some [] else none
strip_suffix t (c ∷ s) = if equal (c ∷ s) t then some [] else Option.map (◌∷◌ c) (strip_suffix t s)

-- `ends_with(c)`
unfoldable pub ends_with : ℕ → Text → Bool
ends_with c [] = false
ends_with c (x ∷ []) = x == c
ends_with c (x ∷ y ∷ s) = ends_with c (y ∷ s)

-- `split(sep)`: one piece more than there are separators.
abbrev pub onto_first : ℕ → List Text → List Text
onto_first c [] = (c ∷ []) ∷ []
onto_first c (p ∷ ps) = (c ∷ p) ∷ ps

unfoldable pub split : ℕ → Text → List Text
split sep [] = [] ∷ []
split sep (c ∷ s) = if c == sep then [] ∷ split sep s else onto_first c (split sep s)

-- `split_once(sep)`
unfoldable pub split_once : ℕ → Text → Option (Text × Text)
split_once sep [] = none
split_once sep (c ∷ s) =
    if c == sep
    then some ([], s)
    else Option.map (λ (p : Text × Text). (c ∷ p.0, p.1)) (split_once sep s)

-- `rsplit_once(sep)`: at the last separator.
abbrev pub split_later : ℕ → ℕ → Text → Option (Text × Text) → Option (Text × Text)
split_later sep c s (some (front, back)) = some (c ∷ front, back)
split_later sep c s none = if c == sep then some ([], s) else none

unfoldable pub rsplit_once : ℕ → Text → Option (Text × Text)
rsplit_once sep [] = none
rsplit_once sep (c ∷ s) = split_later sep c s (rsplit_once sep s)

-- `split_whitespace`: the word that is being read, and the words behind it.
abbrev pub and_word : Text → List Text → List Text
and_word [] ws = ws
and_word (c ∷ w) ws = (c ∷ w) ∷ ws

unfoldable pub words_from : Text → Text → List Text
unfolding is_whitespace
words_from word [] = and_word word []
words_from word (c ∷ s) =
    let ended = words_from [] s in
    let longer = words_from (word ++ c ∷ []) s in
    if is_whitespace c then and_word word ended else longer

unfoldable pub words : Text → List Text
unfolding words_from
words s = words_from [] s

-- `lines()`: without the line ends, and without an empty line behind the last of them.
abbrev pub without_cr : Text → Text
without_cr [] = []
without_cr (c ∷ []) = if c == 13 then [] else c ∷ []
without_cr (c ∷ d ∷ s) = c ∷ without_cr (d ∷ s)

abbrev pub without_last : List Text → List Text
without_last [] = []
without_last (t ∷ []) = and_word t []
without_last (t ∷ u ∷ ts) = without_cr t ∷ without_last (u ∷ ts)

unfoldable pub lines : Text → List Text
unfolding split
lines s = without_last (split 10 s)

unfoldable pub is_digit : ℕ → Bool
is_digit c = leb b'0' c && leb c b'9'

-- The value of a text of digits below or at a bound, read behind `acc`.
unfoldable pub read_digits : ℕ → ℕ → Text → Option ℕ
unfolding is_digit
read_digits limit acc [] = some acc
read_digits limit acc (c ∷ s) =
    let next = acc * 10 + (c - b'0') in
    let rest = read_digits limit next s in if is_digit c && leb next limit then rest else none

-- `parse::<u8>` and its like: an optional `+`, and digits.
unfoldable pub parse_uint : ℕ → Text → Option ℕ
unfolding read_digits
parse_uint limit [] = none
parse_uint limit (c ∷ []) = if c == b'+' then none else read_digits limit 0 (c ∷ [])
parse_uint limit (c ∷ d ∷ s) =
    if c == b'+' then read_digits limit 0 (d ∷ s) else read_digits limit 0 (c ∷ d ∷ s)

Option-map-some :
    {A B : Type 0} (f : A → B) (o : Option A) {b : B}
    → Option.map f o ≡ some b
    → (a : A) × (o ≡ some a) × (f a ≡ b)
Option-map-some f (some a) e = (a, refl, cc)
Option-map-some f none e = cc

some_eq : {a b : Text} → some a ≡ some b → a ≡ b
some_eq e = cc

-- A suffix is stripped exactly where the text is what is left, followed by the suffix.
pub strip_suffix_sound : (t s p : Text) → strip_suffix t s ≡ some p → s ≡ p ++ t
unfolding strip_suffix
strip_suffix_sound t [] p e = elim (Bool-cases (equal [] t)) [
  | inl h ↦ let q : [] ≡ p = some_eq (rw h at e) in (equal_iff [] t).0 h ∙ ap (λ x. x ++ t) q
  | inr h ↦ ground arith
]
strip_suffix_sound t (c ∷ s) p e = elim (Bool-cases (equal (c ∷ s) t)) [
  | inl h ↦ let q : [] ≡ p = some_eq (rw h at e) in (equal_iff (c ∷ s) t).0 h ∙ ap (λ x. x ++ t) q
  | inr h ↦
      let (q, e', f) = Option-map-some (◌∷◌ c) (strip_suffix t s) (rw h at e) in
      ap (◌∷◌ c) (strip_suffix_sound t s q e') ∙ ap (λ x. x ++ t) f
]

strip_suffix_self : (t : Text) → strip_suffix t t ≡ some []
unfolding strip_suffix
strip_suffix_self [] = rw (equal_refl [])
strip_suffix_self (c ∷ t) = rw (equal_refl (c ∷ t))

longer-ne : (c : ℕ) (p t : Text) → equal (c ∷ (p ++ t)) t ≡ false
longer-ne c p t = elim (Bool-cases (equal (c ∷ (p ++ t)) t)) [
  | inl h ↦ absurd (omega (arith, ap length ((equal_iff (c ∷ (p ++ t)) t).0 h), length-append p t))
  | inr h ↦ h
]

strip_suffix_longer :
    (t s p : Text) (c : ℕ)
    → equal (c ∷ s) t ≡ false
    → strip_suffix t s ≡ some p
    → strip_suffix t (c ∷ s) ≡ some (c ∷ p)
unfolding strip_suffix
strip_suffix_longer t s p c h e = rw (h, e)

pub strip_suffix-append : (t p : Text) → strip_suffix t (p ++ t) ≡ some p
strip_suffix-append t [] = strip_suffix_self t
strip_suffix-append t (c ∷ p) =
    strip_suffix_longer t (p ++ t) p c (longer-ne c p t) (strip_suffix-append t p)

ends_with_sound : (c : ℕ) (s : Text) → ends_with c s ≡ true → (q : Text) × (s ≡ q ++ c ∷ [])
unfolding ends_with
ends_with_sound c [] h = cc
ends_with_sound c (x ∷ []) h = ([], ground arith)
ends_with_sound c (x ∷ y ∷ s) h = let (q, e) = ends_with_sound c (y ∷ s) h in (x ∷ q, ap (◌∷◌ x) e)

ends_with-append : (c : ℕ) (q : Text) → ends_with c (q ++ c ∷ []) ≡ true
unfolding ends_with
ends_with-append c [] = ground arith
ends_with-append c (x ∷ []) = ground arith
ends_with-append c (x ∷ y ∷ q) = ends_with-append c (y ∷ q)

pub ends_with_iff : (c : ℕ) (s : Text) → (ends_with c s ≡ true) ↔ ((q : Text) × (s ≡ q ++ c ∷ []))
ends_with_iff c s = (ends_with_sound c s, λ (q, e). rw e (ends_with-append c q))

-- A number that is read is within the bound.
pub read_digits-le :
    (limit acc : ℕ) (s : Text) (n : ℕ) → acc ≤ limit → read_digits limit acc s ≡ some n → n ≤ limit
unfolding read_digits
read_digits-le limit acc [] n h e = ground arith
read_digits-le limit acc (c ∷ s) n h e =
    ground (arith, read_digits-le limit (acc * 10 + (c - b'0')) s n)
