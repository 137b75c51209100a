-- ===== src/Listener/Base64.antt =====
-- `base64_decode` of crates/proxy-core/src/local_proxy.rs.
use mathlib.Core.Option
use proxy_switcher.Common.{
  ℕ, suc, ◌+◌, ◌-◌, ◌*◌, ◌/◌, ◌%◌, ◌^◌, Bool, ◌||◌, Option, none, some, [], ◌∷◌, ◌++◌,
  if◌then◌else◌, leb, ◌==◌,
}
use proxy_switcher.Common.Outcome.{Bytes}
use proxy_switcher.Common.Text.{codes}

-- `TABLE`
abbrev pub table : Bytes
table = codes "ABCDEFGHIJKLMNOPQRSTUVWXYZabcdefghijklmnopqrstuvwxyz0123456789+/"

-- `TABLE.iter().position(|c| *c == byte)`
unfoldable pub place_of_byte : ℕ → Bytes → Option ℕ
place_of_byte b [] = none
place_of_byte b (c ∷ cs) = if c == b then some 0 else Option.map suc (place_of_byte b cs)

-- `is_ascii_whitespace`
abbrev pub is_space : ℕ → Bool
is_space b = b == 32 || b == 9 || b == 10 || b == 12 || b == 13

-- What the loop does with a digit: the digits so far in 32 bits, and how many bits of them are
-- not written yet.
unfoldable pub take_digit : ℕ → ℕ → ℕ → (ℕ × ℕ) × Bytes
take_digit buffer bits value =
    let buffer = buffer * 64 % 2 ^ 32 + value in
    let bits = bits + 6 in
    if leb 8 bits
    then ((buffer, bits - 8), (buffer / 2 ^ (bits - 8) % 256) ∷ [])
    else ((buffer, bits), [])

abbrev pub onto_bytes : Bytes → Option Bytes → Option Bytes
onto_bytes out none = none
onto_bytes out (some rest) = some (out ++ rest)

-- The loop; `none` is its early return.
unfoldable pub decode_digits : ℕ → ℕ → Bytes → Option Bytes
unfolding take_digit place_of_byte
decode_digits buffer bits [] = some []
decode_digits buffer bits (b ∷ bs) =
    let skipped = decode_digits buffer bits bs in
    if b == b'=' || is_space b then skipped else elim (place_of_byte b table) [
      | none ↦ none
      | some value ↦
          let ((buffer', bits'), out) = take_digit buffer bits value in
          onto_bytes out (decode_digits buffer' bits' bs)
    ]

unfoldable pub base64_decode : Bytes → Option Bytes
unfolding decode_digits
base64_decode = decode_digits 0 0
