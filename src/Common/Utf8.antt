-- ===== src/Common/Utf8.antt =====
-- Text as bytes: `as_bytes`, `String::from_utf8` and `String::from_utf8_lossy`. The decoder goes
-- over the bytes once; of a sequence that breaks off it replaces the part that could have gone on.
use Prim.Native.Nat.{ℕ, ◌+◌, ◌-◌, ◌*◌, ◌/◌, ◌%◌, ◌<◌, ◌≤◌}
use mathlib.Core.Bool.{◌&&◌}
use mathlib.Core.List.{List, [], ◌∷◌, ◌++◌, map}
use mathlib.Core.Logic.{◌⊎◌, inl, inr}
use mathlib.Core.Option.{Option, none, some}
use mathlib.Core.Path.{◌≡◌, refl, ap, ◌∙◌}
use native.Mathlib.Omega.{arith}
use proxy_switcher.Common.Outcome.{Bytes}
use proxy_switcher.Common.Tests.{
  tests, ltb→lt, ltb_false→le, Bool-cases, ltb, leb, ◌==◌, if◌then◌else◌,
}
use proxy_switcher.Common.Text.{Text}

-- `as_bytes` of one character.
unfoldable pub encode_char : ℕ → Bytes
encode_char c =
    if ltb c 0x80
    then c ∷ []
    else if ltb c 0x800
    then (0xc0 + c / 64) ∷ (0x80 + c % 64) ∷ []
    else if ltb c 0x10000
    then (0xe0 + c / 4096) ∷ (0x80 + c / 64 % 64) ∷ (0x80 + c % 64) ∷ []
    else (0xf0 + c / 262144) ∷ (0x80 + c / 4096 % 64) ∷ (0x80 + c / 64 % 64) ∷ (0x80 + c % 64) ∷ []

unfoldable pub as_bytes : Text → Bytes
unfolding encode_char
as_bytes [] = []
as_bytes (c ∷ s) = encode_char c ++ as_bytes s

-- Between two characters, or inside one: how many bytes are to come, the bounds of the next one, and
-- the digits so far.
pub data Decoder : Type 0 where
  between : Decoder
  inside : ℕ → ℕ → ℕ → ℕ → Decoder

-- The first byte of a character.
unfoldable pub lead : ℕ → List (Option ℕ) × Decoder
lead b =
    if ltb b 0x80
    then (some b ∷ [], between)
    else if leb 0xc2 b && leb b 0xdf
    then ([], inside 1 0x80 0xbf (b - 0xc0))
    else if b == 0xe0
    then ([], inside 2 0xa0 0xbf 0)
    else if b == 0xed
    then ([], inside 2 0x80 0x9f 13)
    else if leb 0xe1 b && leb b 0xef
    then ([], inside 2 0x80 0xbf (b - 0xe0))
    else if b == 0xf0
    then ([], inside 3 0x90 0xbf 0)
    else if leb 0xf1 b && leb b 0xf3
    then ([], inside 3 0x80 0xbf (b - 0xf0))
    else if b == 0xf4
    then ([], inside 3 0x80 0x8f 4)
    else (none ∷ [], between)

abbrev pub go_on : ℕ → ℕ → List (Option ℕ) × Decoder
go_on need acc =
    if need == 1 then (some acc ∷ [], between) else ([], inside (need - 1) 0x80 0xbf acc)

unfoldable pub decode_byte : Decoder → ℕ → List (Option ℕ) × Decoder
unfolding lead
decode_byte between b = lead b
decode_byte (inside need lo hi acc) b =
    if leb lo b && leb b hi
    then go_on need (acc * 64 + (b - 0x80))
    else (none ∷ (lead b).0, (lead b).1)

abbrev pub cut_off : Decoder → List (Option ℕ)
cut_off between = []
cut_off (inside need lo hi acc) = none ∷ []

-- The characters, and none for each part that is none.
unfoldable pub decode_chars : Decoder → Bytes → List (Option ℕ)
unfolding decode_byte
decode_chars d [] = cut_off d
decode_chars d (b ∷ bs) = (decode_byte d b).0 ++ decode_chars (decode_byte d b).1 bs

abbrev pub or_replacement : Option ℕ → ℕ
or_replacement none = 0xfffd
or_replacement (some c) = c

unfoldable pub from_utf8_lossy : Bytes → Text
unfolding decode_chars
from_utf8_lossy bs = map or_replacement (decode_chars between bs)

abbrev pub onto : Option ℕ → Option Text → Option Text
onto (some c) (some s) = some (c ∷ s)
onto _ _ = none

abbrev pub all_chars : List (Option ℕ) → Option Text
all_chars [] = some []
all_chars (c ∷ cs) = onto c (all_chars cs)

unfoldable pub from_utf8 : Bytes → Option Text
unfolding decode_chars
from_utf8 bs = all_chars (decode_chars between bs)

-- A character of Rust: a scalar value of Unicode.
abbrev pub IsChar : ℕ → Type 0
IsChar c = (c < 0xd800) ⊎ ((0xdfff < c) × (c < 0x110000))

abbrev pub IsText : Text → Type 0
IsText [] = Unit {0}
IsText (c ∷ s) = IsChar c × IsText s

-- The bounds of the byte behind a first byte of three or of four.
abbrev second_of_three : ℕ → ℕ × ℕ
second_of_three x = (if x == 0 then 0xa0 else 0x80, if x == 13 then 0x9f else 0xbf)

abbrev second_of_four : ℕ → ℕ × ℕ
second_of_four x = (if x == 0 then 0x90 else 0x80, if x == 4 then 0x8f else 0xbf)

lead_one : (b : ℕ) → b < 0x80 → lead b ≡ (some b ∷ [], between)
unfolding lead
lead_one b h = ground arith

lead_two : (x : ℕ) → 2 ≤ x → x < 32 → lead (0xc0 + x) ≡ ([], inside 1 0x80 0xbf x)
unfolding lead
lead_two x l h = ground arith

lead_three :
    (x : ℕ)
    → x < 16
    → lead (0xe0 + x) ≡ ([], inside 2 (second_of_three x).0 (second_of_three x).1 x)
unfolding lead
lead_three x h = ground arith

lead_four :
    (x : ℕ) → x < 5 → lead (0xf0 + x) ≡ ([], inside 3 (second_of_four x).0 (second_of_four x).1 x)
unfolding lead
lead_four x h = ground arith

next_byte :
    (need lo hi acc y : ℕ)
    → lo ≤ 0x80 + y
    → 0x80 + y ≤ hi
    → decode_byte (inside need lo hi acc) (0x80 + y) ≡ go_on need (acc * 64 + y)
unfolding decode_byte
next_byte need lo hi acc y l h = ground arith

char_bound : (c : ℕ) → IsChar c → c / 262144 < 5
char_bound c (inl l) = omega arith
char_bound c (inr h) = omega arith

module _ (bs : Bytes) where
  last_of :
      (lo hi acc y : ℕ)
      → lo ≤ 0x80 + y
      → 0x80 + y ≤ hi
      → decode_chars (inside 1 lo hi acc) ((0x80 + y) ∷ bs)
        ≡ some (acc * 64 + y) ∷ decode_chars between bs
  unfolding decode_chars
  last_of lo hi acc y l h = rw (next_byte 1 lo hi acc y l h) refl

  two_of :
      (lo hi acc y z : ℕ)
      → lo ≤ 0x80 + y
      → 0x80 + y ≤ hi
      → z < 64
      → decode_chars (inside 2 lo hi acc) ((0x80 + y) ∷ (0x80 + z) ∷ bs)
        ≡ some ((acc * 64 + y) * 64 + z) ∷ decode_chars between bs
  unfolding decode_chars
  two_of lo hi acc y z l h k =
      rw (next_byte 2 lo hi acc y l h)
        (last_of 0x80 0xbf (acc * 64 + y) z (omega arith) (omega arith))

  three_of :
      (lo hi acc y z w : ℕ)
      → lo ≤ 0x80 + y
      → 0x80 + y ≤ hi
      → z < 64
      → w < 64
      → decode_chars (inside 3 lo hi acc) ((0x80 + y) ∷ (0x80 + z) ∷ (0x80 + w) ∷ bs)
        ≡ some (((acc * 64 + y) * 64 + z) * 64 + w) ∷ decode_chars between bs
  unfolding decode_chars
  three_of lo hi acc y z w l h k j =
      rw (next_byte 3 lo hi acc y l h)
        (two_of 0x80 0xbf (acc * 64 + y) z w (omega arith) (omega arith) j)

  as_char : (x c : ℕ) → x ≡ c → some x ∷ decode_chars between bs ≡ some c ∷ decode_chars between bs
  as_char x c e = ap (λ x. some x ∷ decode_chars between bs) e

  -- The bytes of a character are read as that character.
  decode-encode_char :
      (c : ℕ)
      → IsChar c
      → decode_chars between (encode_char c ++ bs) ≡ some c ∷ decode_chars between bs
  unfolding decode_chars decode_byte encode_char
  decode-encode_char c h = elim (Bool-cases (ltb c 0x80)) [
    | inl one ↦ rw one (rw (lead_one c (ltb→lt c 0x80 one)) refl)
    | inr over ↦ elim (Bool-cases (ltb c 0x800)) [
      | inl two ↦
          rw (over, two)
            (rw (lead_two (c / 64) (omega tests) (omega tests)) (
              last_of 0x80 0xbf (c / 64) (c % 64) (omega arith) (omega arith)
              ∙ as_char (c / 64 * 64 + c % 64) c (omega arith)))
      | inr above ↦ elim (Bool-cases (ltb c 0x10000)) [
        | inl three ↦
            let low : (second_of_three (c / 4096)).0 ≤ 0x80 + c / 64 % 64 =
              ground (arith, ltb_false→le c 0x800 above) in
            let high : 0x80 + c / 64 % 64 ≤ (second_of_three (c / 4096)).1 = ground (arith, h) in
            rw (over, above, three)
              (rw (lead_three (c / 4096) (omega tests)) (
                two_of _ _ (c / 4096) (c / 64 % 64) (c % 64) low high (omega arith)
                ∙ as_char ((c / 4096 * 64 + c / 64 % 64) * 64 + c % 64) c (omega arith)))
        | inr four ↦
            let low : (second_of_four (c / 262144)).0 ≤ 0x80 + c / 4096 % 64 =
              ground (arith, ltb_false→le c 0x10000 four) in
            let high : 0x80 + c / 4096 % 64 ≤ (second_of_four (c / 262144)).1 = ground (arith, h) in
            rw (over, above, four)
              (rw (lead_four (c / 262144) (char_bound c h)) (
                three_of _ _ (c / 262144) (c / 4096 % 64) (c / 64 % 64) (c % 64) low high
                  (omega arith) (omega arith)
                ∙ as_char (((c / 262144 * 64 + c / 4096 % 64) * 64 + c / 64 % 64) * 64 + c % 64) c
                    (omega arith)))
      ]
    ]
  ]

chars_of_text : (t : Text) → IsText t → decode_chars between (as_bytes t) ≡ map some t
unfolding decode_chars as_bytes
chars_of_text [] h = refl
chars_of_text (c ∷ t) h =
    decode-encode_char (as_bytes t) c h.0 ∙ ap (◌∷◌ (some c)) (chars_of_text t h.1)

all_chars-map-some : (t : Text) → all_chars (map some t) ≡ some t
all_chars-map-some [] = refl
all_chars-map-some (c ∷ t) = rw (all_chars-map-some t) refl

lossy-map-some : (t : Text) → map or_replacement (map some t) ≡ t
lossy-map-some [] = refl
lossy-map-some (c ∷ t) = ap (◌∷◌ c) (lossy-map-some t)

-- A text is read from its bytes, strictly or not.
pub from_utf8-as_bytes : (t : Text) → IsText t → from_utf8 (as_bytes t) ≡ some t
unfolding from_utf8
from_utf8-as_bytes t h = rw (chars_of_text t h) (all_chars-map-some t)

pub from_utf8_lossy-as_bytes : (t : Text) → IsText t → from_utf8_lossy (as_bytes t) ≡ t
unfolding from_utf8_lossy
from_utf8_lossy-as_bytes t h = rw (chars_of_text t h) (lossy-map-some t)
