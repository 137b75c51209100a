-- ===== src/Common/Bits.antt =====
-- `&` with a mask whose ones stand together. The operation computes at numerals; at variables it is
-- taken apart digit by digit.
use Prim.Native.Nat.{
  ℕ, zero, suc, ◌+◌, ◌*◌, ◌/◌, ◌%◌, ◌^◌, ◌≤◌, ◌<◌, min, bit_and, digits, bit_and-bitwise,
}
use mathlib.Core.Path.{◌≡◌, refl, ap, sym, subst, ◌∙◌}
use mathlib.Core.Logic.{◌↔◌}
use native.Mathlib.Nat.{pow-suc, pow-succ', add-zero, div-one, div-div-eq-div-mul}
use native.Mathlib.Omega.{arith}

-- What `bit_and` stands for: the common digits of two numbers, taken one at a time.
abbrev common_digits : ℕ → ℕ → ℕ → ℕ
common_digits fuel x y = digits (λ rest. zero) min fuel x y

nothing_common : (fuel y : ℕ) → common_digits fuel 0 y ≡ 0
nothing_common zero y = refl
nothing_common (suc fuel) y = refl

-- A number has no more digits than its value, so fuel beyond that changes nothing.
spare_fuel :
    (x y more fuel : ℕ) → fuel ≤ more → x ≤ fuel → common_digits more x y ≡ common_digits fuel x y
spare_fuel zero y more fuel h k = nothing_common more y ∙ sym (nothing_common fuel y)
spare_fuel (suc x) y more zero h k = absurd (omega arith)
spare_fuel (suc x) y zero (suc fuel) h k = absurd (omega arith)
spare_fuel (suc x) y (suc more) (suc fuel) h k =
    let half : suc x / 2 ≤ fuel = omega arith in
    omega (arith, spare_fuel (suc x / 2) (y / 2) more fuel (omega arith) half)

-- One binary digit of `&`.
pub bit_and-halves : (x y : ℕ) → bit_and x y ≡ bit_and (x / 2) (y / 2) * 2 + min (x % 2) (y % 2)
bit_and-halves zero y =
    let none : (z : ℕ) → bit_and 0 z ≡ 0 = λ z. bit_and-bitwise 0 z in
    omega (arith, none (y / 2), none y)
bit_and-halves (suc x) y =
    let whole = bit_and-bitwise (suc x) y in
    let rest = bit_and-bitwise (suc x / 2) (y / 2) in
    let same = spare_fuel (suc x / 2) (y / 2) x (suc x / 2) (omega arith) (omega arith) in
    omega (arith, same, rest, whole)

no_digits_common : (bound x : ℕ) → x < bound → bit_and x 0 ≡ 0
no_digits_common zero x h = elim h [ ]
no_digits_common (suc bound) zero h = bit_and-bitwise 0 0
no_digits_common (suc bound) (suc x) h =
    let half = no_digits_common bound (suc x / 2) (omega arith) in
    omega (arith, half, bit_and-halves (suc x) 0)

pub bit_and-zero : (a : ℕ) → bit_and a 0 ≡ 0
bit_and-zero a = no_digits_common (suc a) a (omega arith)

-- `w` ones.
unfoldable pub ones : ℕ → ℕ
ones zero = 0
ones (suc w) = ones w * 2 + 1

-- `w` ones followed by `s` zeros.
unfoldable pub ones_then_zeros : ℕ → ℕ → ℕ
ones_then_zeros w zero = ones w
ones_then_zeros w (suc s) = ones_then_zeros w s * 2

-- The remainder of a number modulo `2 ^ w`, and the number divided by `2 ^ s`, by halving.
pub low : ℕ → ℕ → ℕ
low zero a = 0
low (suc w) a = low w (a / 2) * 2 + a % 2

pub high : ℕ → ℕ → ℕ
high zero a = a
high (suc s) a = high s (a / 2)

pub shifted : ℕ → ℕ → ℕ
shifted zero a = a
shifted (suc s) a = shifted s a * 2

bit_and-ones : (w a : ℕ) → bit_and a (ones w) ≡ low w a
unfolding ones low
bit_and-ones zero a = bit_and-zero a
bit_and-ones (suc w) a =
    let half : (ones w * 2 + 1) / 2 ≡ ones w = omega arith in
    bit_and-halves a (ones w * 2 + 1)
    ∙ omega (arith, ap (bit_and (a / 2)) half, bit_and-ones w (a / 2))

-- Such a mask keeps `w` digits of a number above its `s` lowest.
pub bit_and-ones_then_zeros :
    (w s a : ℕ) → bit_and a (ones_then_zeros w s) ≡ shifted s (low w (high s a))
unfolding ones_then_zeros high shifted
bit_and-ones_then_zeros w zero a = bit_and-ones w a
bit_and-ones_then_zeros w (suc s) a =
    let half : ones_then_zeros w s * 2 / 2 ≡ ones_then_zeros w s = omega arith in
    bit_and-halves a (ones_then_zeros w s * 2)
    ∙ omega (arith, ap (bit_and (a / 2)) half, bit_and-ones_then_zeros w s (a / 2))

shifted-injective : (s a b : ℕ) → shifted s a ≡ shifted s b → a ≡ b
unfolding shifted
shifted-injective zero a b e = e
shifted-injective (suc s) a b e = shifted-injective s a b (omega arith)

low-lt : (w a : ℕ) → a < 2 ^ w → low w a ≡ a
unfolding low
low-lt zero a h = omega arith
low-lt (suc w) a h = omega (arith, pow-suc 2 w, low-lt w (a / 2) (omega (arith, pow-suc 2 w)))

high-lt : (w s a : ℕ) → a < 2 ^ (w + s) → high s a < 2 ^ w
unfolding high
high-lt w zero a h = subst (λ t. a < 2 ^ t) (add-zero w) h
high-lt w (suc s) a h =
    let h' : a < 2 ^ suc (w + s) = subst (λ t. a < 2 ^ t) (omega arith) h in
    high-lt w s (a / 2) (omega (arith, pow-suc 2 (w + s)))

-- Of two numbers of `w + s` digits the mask keeps the same exactly if they agree above the `s`
-- lowest.
pub masked_iff :
    (w s a b : ℕ)
    → a < 2 ^ (w + s)
    → b < 2 ^ (w + s)
    → (bit_and a (ones_then_zeros w s) ≡ bit_and b (ones_then_zeros w s)) ↔ (high s a ≡ high s b)
masked_iff w s a b ha hb =
    let la = low-lt w (high s a) (high-lt w s a ha) in
    let lb = low-lt w (high s b) (high-lt w s b hb) in
    let ma = bit_and-ones_then_zeros w s a ∙ ap (shifted s) la in
    let mb = bit_and-ones_then_zeros w s b ∙ ap (shifted s) lb in
    (
      λ e. shifted-injective s (high s a) (high s b) (sym ma ∙ e ∙ mb),
      λ e. ma ∙ ap (shifted s) e ∙ sym mb,
    )

pub high-div : (s a : ℕ) → high s a ≡ a / 2 ^ s
unfolding high
high-div zero a = sym (div-one a)
high-div (suc s) a =
    high-div s (a / 2) ∙ div-div-eq-div-mul a 2 (2 ^ s) ∙ ap (◌/◌ a) (sym (pow-succ' 2 s))

-- A number of six digits has none in common with a mask above them.
pub above_six : (n : ℕ) → n < 64 → bit_and n 0xc0 ≡ 0
unfolding ones ones_then_zeros high low shifted
above_six n h = omega (arith, bit_and-ones_then_zeros 2 6 n)
