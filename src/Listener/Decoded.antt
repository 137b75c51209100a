-- ===== src/Listener/Decoded.antt =====
-- `base64_decode` reads what base64 writes.
use proxy_switcher.Common.{
  ℕ, zero, suc, ◌+◌, ◌-◌, ◌*◌, ◌/◌, ◌%◌, ◌^◌, ◌<◌, ◌≡◌, refl, ap, ◌∙◌, Bool, true, false, ◌&&◌,
  ◌||◌, Option, none, some, [], ◌∷◌, arith, if◌then◌else◌, ltb, ◌==◌,
}
use proxy_switcher.Common.Outcome.{Bytes}
use proxy_switcher.Listener.Base64.{
  table, place_of_byte, is_space, take_digit, onto_bytes, decode_digits, base64_decode,
}

-- The digit of base64 for a number below 64.
abbrev pub digit : ℕ → ℕ
digit n =
    if ltb n 26
    then b'A' + n
    else if ltb n 52
    then b'a' + (n - 26)
    else if ltb n 62
    then b'0' + (n - 52)
    else if n == 62
    then b'+'
    else b'/'

-- What RFC 4648 writes: three bytes as four digits, and padding behind the last one or two bytes.
unfoldable pub base64 : Bytes → Bytes
base64 [] = []
base64 (a ∷ []) = digit (a / 4) ∷ digit (a % 4 * 16) ∷ b'=' ∷ b'=' ∷ []
base64 (a ∷ b ∷ []) = digit (a / 4) ∷ digit (a % 4 * 16 + b / 16) ∷ digit (b % 16 * 4) ∷ b'=' ∷ []
base64 (a ∷ b ∷ c ∷ rest) =
    digit (a / 4)
    ∷ digit (a % 4 * 16 + b / 16)
    ∷ digit (b % 16 * 4 + c / 64)
    ∷ digit (c % 64)
    ∷ base64 rest

abbrev pub AllBytes : Bytes → Type 0
AllBytes [] = Unit {0}
AllBytes (b ∷ bs) = (b < 256) × AllBytes bs

-- Every digit is read as its number, and none is skipped.
abbrev below : ℕ → (ℕ → Bool) → Bool
below zero p = true
below (suc n) p = p n && below n p

below_sound : (n : ℕ) (p : ℕ → Bool) (x : ℕ) → below n p ≡ true → x < n → p x ≡ true
below_sound zero p x h l = absurd (omega arith)
below_sound (suc n) p x h l = ground (arith, below_sound n p x)

abbrev is_read_as : Option ℕ → ℕ → Bool
is_read_as none n = false
is_read_as (some m) n = m == n

digits_are_read : below 64 (λ n. is_read_as (place_of_byte (digit n) table) n) ≡ true
unfolding place_of_byte
digits_are_read = refl

read_as : (o : Option ℕ) (n : ℕ) → is_read_as o n ≡ true → o ≡ some n
read_as none n h = cc
read_as (some m) n h = ground arith

digit-read : (n : ℕ) → n < 64 → place_of_byte (digit n) table ≡ some n
digit-read n h =
    read_as (place_of_byte (digit n) table) n
      (below_sound 64 (λ n. is_read_as (place_of_byte (digit n) table) n) n digits_are_read h)

digit_kept : (n : ℕ) → n < 64 → (digit n == b'=' || is_space (digit n)) ≡ false
digit_kept n h = ground arith

decode-digit :
    (buffer bits n : ℕ) (bs : Bytes)
    → n < 64
    → decode_digits buffer bits (digit n ∷ bs)
      ≡ onto_bytes
          (take_digit buffer bits n).1
          (decode_digits (take_digit buffer bits n).0.0 (take_digit buffer bits n).0.1 bs)
unfolding decode_digits
decode-digit buffer bits n bs h = rw (digit_kept n h, digit-read n h, decode_digits) refl

-- The four steps from a byte's border to the next one.
step_one : (x v : ℕ) → take_digit x 0 v ≡ ((x * 64 % 2 ^ 32 + v, 6), [])
unfolding take_digit
step_one x v = refl

step_two :
    (x v w : ℕ)
    → v < 64
    → w < 64
    → take_digit (x * 64 % 2 ^ 32 + v) 6 w
      ≡ (((x * 64 % 2 ^ 32 + v) * 64 % 2 ^ 32 + w, 4), (v * 4 + w / 16) ∷ [])
unfolding take_digit
step_two x v w h k = ap (λ b. (((x * 64 % 2 ^ 32 + v) * 64 % 2 ^ 32 + w, 4), b ∷ [])) (omega arith)

step_three :
    (x v w : ℕ)
    → v < 64
    → w < 64
    → take_digit (x * 64 % 2 ^ 32 + v) 4 w
      ≡ (((x * 64 % 2 ^ 32 + v) * 64 % 2 ^ 32 + w, 2), (v % 16 * 16 + w / 4) ∷ [])
unfolding take_digit
step_three x v w h k =
    ap (λ b. (((x * 64 % 2 ^ 32 + v) * 64 % 2 ^ 32 + w, 2), b ∷ [])) (omega arith)

step_four :
    (x v w : ℕ)
    → v < 64
    → w < 64
    → take_digit (x * 64 % 2 ^ 32 + v) 2 w
      ≡ (((x * 64 % 2 ^ 32 + v) * 64 % 2 ^ 32 + w, 0), (v % 4 * 64 + w) ∷ [])
unfolding take_digit
step_four x v w h k = ap (λ b. (((x * 64 % 2 ^ 32 + v) * 64 % 2 ^ 32 + w, 0), b ∷ [])) (omega arith)

padding : (buffer bits : ℕ) → decode_digits buffer bits (b'=' ∷ []) ≡ some []
unfolding decode_digits
padding buffer bits = refl

padding_twice : (buffer bits : ℕ) → decode_digits buffer bits (b'=' ∷ b'=' ∷ []) ≡ some []
unfolding decode_digits
padding_twice buffer bits = refl

onto_nothing : (o : Option Bytes) → onto_bytes [] o ≡ o
onto_nothing none = refl
onto_nothing (some bs) = refl

-- The register behind a digit.
abbrev shifted : ℕ → ℕ → ℕ
shifted x v = x * 64 % 2 ^ 32 + v

equal_two :
    {a b c d : ℕ} → a ≡ c → b ≡ d → ◌≡◌ {A = Option Bytes} (some (a ∷ b ∷ [])) (some (c ∷ d ∷ []))
equal_two p q = cc

equal_three :
    {a b c d e f : ℕ} {bs : Bytes}
    → a ≡ d
    → b ≡ e
    → c ≡ f
    → ◌≡◌ {A = Option Bytes} (some (a ∷ b ∷ c ∷ bs)) (some (d ∷ e ∷ f ∷ bs))
equal_three p q r = cc

two_digits :
    (x v w : ℕ) (bs : Bytes)
    → v < 64
    → w < 64
    → decode_digits x 0 (digit v ∷ digit w ∷ bs)
      ≡ onto_bytes ((v * 4 + w / 16) ∷ []) (decode_digits (shifted (shifted x v) w) 4 bs)
two_digits x v w bs h k =
    rw (decode-digit x 0 v (digit w ∷ bs) h, step_one x v)
      (onto_nothing (decode_digits (shifted x v) 6 (digit w ∷ bs))
        ∙ (rw (decode-digit (shifted x v) 6 w bs k, step_two x v w h k) refl))

third_digit :
    (x v w : ℕ) (bs : Bytes)
    → v < 64
    → w < 64
    → decode_digits (shifted x v) 4 (digit w ∷ bs)
      ≡ onto_bytes ((v % 16 * 16 + w / 4) ∷ []) (decode_digits (shifted (shifted x v) w) 2 bs)
third_digit x v w bs h k = rw (decode-digit (shifted x v) 4 w bs k, step_three x v w h k) refl

fourth_digit :
    (x v w : ℕ) (bs : Bytes)
    → v < 64
    → w < 64
    → decode_digits (shifted x v) 2 (digit w ∷ bs)
      ≡ onto_bytes ((v % 4 * 64 + w) ∷ []) (decode_digits (shifted (shifted x v) w) 0 bs)
fourth_digit x v w bs h k = rw (decode-digit (shifted x v) 2 w bs k, step_four x v w h k) refl

decode_digits-base64 : (x : ℕ) (bs : Bytes) → AllBytes bs → decode_digits x 0 (base64 bs) ≡ some bs
unfolding base64
decode_digits-base64 x [] h = unfold decode_digits in refl
decode_digits-base64 x (a ∷ []) h =
    rw
      (
        two_digits x (a / 4) (a % 4 * 16) (b'=' ∷ b'=' ∷ []) (omega arith) (omega arith),
        padding_twice (shifted (shifted x (a / 4)) (a % 4 * 16)) 4,
      )
      (ap (λ b. some (b ∷ [])) (omega arith))
decode_digits-base64 x (a ∷ b ∷ []) h =
    let v = a % 4 * 16 + b / 16 in
    let w = b % 16 * 4 in
    rw
      (
        two_digits x (a / 4) v (digit w ∷ b'=' ∷ []) (omega arith) (omega arith),
        third_digit (shifted x (a / 4)) v w (b'=' ∷ []) (omega arith) (omega arith),
        padding (shifted (shifted (shifted x (a / 4)) v) w) 2,
      )
      (equal_two (omega arith) (omega arith))
decode_digits-base64 x (a ∷ b ∷ c ∷ rest) h =
    let v = a % 4 * 16 + b / 16 in
    let w = b % 16 * 4 + c / 64 in
    let u = c % 64 in
    let y = shifted x (a / 4) in
    rw
      (
        two_digits x (a / 4) v (digit w ∷ digit u ∷ base64 rest) (omega arith) (omega arith),
        third_digit y v w (digit u ∷ base64 rest) (omega arith) (omega arith),
        fourth_digit (shifted y v) w u (base64 rest) (omega arith) (omega arith),
        decode_digits-base64 (shifted (shifted (shifted y v) w) u) rest h.1.1.1,
      )
      (equal_three (omega arith) (omega arith) (omega arith))

-- The decoder reads what base64 writes, with its padding, for every list of bytes.
pub base64_decode-base64 : (bs : Bytes) → AllBytes bs → base64_decode (base64 bs) ≡ some bs
unfolding base64_decode
base64_decode-base64 bs h = decode_digits-base64 0 bs h
