-- ===== src/Dns/Names.antt =====
-- `decode_name` and `skip_name` of crates/proxy-core/src/dns/mod.rs. A loop of the code is recursion
-- on fuel, and running out of it is an outcome of its own.
use proxy_switcher.Common.{
  ℕ, zero, suc, ◌+◌, ◌-◌, ◌*◌, Bool, ◌&&◌, not, Option, none, some, List, [], ◌∷◌, ◌++◌,
  if◌then◌else◌, leb, ltb, ◌==◌, length, take, drop, is_empty,
}
use Prim.Native.Nat.{bit_and}
use mathlib.Core.Option
use proxy_switcher.Common.Outcome.{Outcome, ok, err, ◌>>=◌, Bytes, byte_at}
use proxy_switcher.Common.Text.{Text}

pub data OutOfFuel : Type 0 where
  out_of_fuel : OutOfFuel

-- The bytes that follow a leading byte, with the value so far and the least one allowed.
abbrev pub is_scalar : ℕ → ℕ → Bool
is_scalar low v = leb low v && leb v 0x10ffff && not (leb 0xd800 v && leb v 0xdfff)

-- `str::from_utf8`: `need` bytes are still missing of the character whose bits so far are `acc`.
unfoldable pub utf8_from : ℕ → ℕ → ℕ → Bytes → Option Text
utf8_from zero acc low [] = some []
utf8_from (suc need) acc low [] = none
utf8_from zero acc low (b ∷ bs) =
    if ltb b 0x80
    then Option.map (◌∷◌ b) (utf8_from 0 0 0 bs)
    else if leb 0xc2 b && ltb b 0xe0
    then utf8_from 1 (b - 0xc0) 0x80 bs
    else if leb 0xe0 b && ltb b 0xf0
    then utf8_from 2 (b - 0xe0) 0x800 bs
    else if leb 0xf0 b && ltb b 0xf5
    then utf8_from 3 (b - 0xf0) 0x10000 bs
    else none
utf8_from (suc zero) acc low (b ∷ bs) =
    let v = acc * 64 + (b - 0x80) in
    if leb 0x80 b && ltb b 0xc0 && is_scalar low v
    then Option.map (◌∷◌ v) (utf8_from 0 0 0 bs)
    else none
utf8_from (suc (suc need)) acc low (b ∷ bs) =
    if leb 0x80 b && ltb b 0xc0 then utf8_from (suc need) (acc * 64 + (b - 0x80)) low bs else none

unfoldable pub from_utf8 : Bytes → Option Text
unfolding utf8_from
from_utf8 = utf8_from 0 0 0

-- `labels.join(".")`
unfoldable pub join_dots : List Text → Text
join_dots [] = []
join_dots (x ∷ []) = x
join_dots (x ∷ y ∷ ys) = x ++ b'.' ∷ join_dots (y ∷ ys)

abbrev pub end_or : Option ℕ → ℕ → ℕ
end_or none offset = offset
end_or (some e) offset = e

-- The loop of `decode_name`: the labels and the offset behind the name, or none.
unfoldable pub name_loop :
    Bytes → ℕ → List Text → ℕ → Option ℕ → Outcome OutOfFuel (Option (List Text × ℕ))
unfolding byte_at ◌>>=◌ from_utf8
name_loop d zero labels offset behind = err out_of_fuel
name_loop d (suc fuel) labels offset behind = if leb (length d) offset then ok none else do
  b ← byte_at d offset
  if b == 0
      then ok (some (labels, end_or behind (offset + 1)))
      else if bit_and b 0xc0 == 0xc0
      then (if leb (length d) (offset + 1) then ok none else do
        low ← byte_at d (offset + 1)
        name_loop d fuel labels (bit_and b 0x3f * 256 + low) (some (end_or behind (offset + 2))))
      else if ltb (length d) (offset + 1 + b)
      then ok none
      else elim (from_utf8 (take b (drop (offset + 1) d))) [
        | none ↦ ok none
        | some label ↦ name_loop d fuel (labels ++ label ∷ []) (offset + 1 + b) behind
      ]

-- What stands behind the loop: a name without labels is none.
abbrev pub joined : Option (List Text × ℕ) → Option (Text × ℕ)
joined none = none
joined (some (labels, behind)) = if is_empty labels then none else some (join_dots labels, behind)

-- `decode_name`
unfoldable pub decode_name : ℕ → Bytes → ℕ → Outcome OutOfFuel (Option (Text × ℕ))
unfolding name_loop ◌>>=◌
decode_name fuel d start = do found ← name_loop d fuel [] start none; ok (joined found)

-- The loop of `skip_name`.
unfoldable pub skip_loop : Bytes → ℕ → ℕ → Outcome OutOfFuel (Option ℕ)
unfolding byte_at ◌>>=◌
skip_loop d zero offset = err out_of_fuel
skip_loop d (suc fuel) offset = if leb (length d) offset then ok none else do
  len ← byte_at d offset
  if len == 0
      then ok (some (offset + 1))
      else if bit_and len 0xc0 == 0xc0
      then ok (some (offset + 2))
      else if ltb (length d) (offset + 1 + len)
      then ok none
      else skip_loop d fuel (offset + 1 + len)

-- `skip_name`
unfoldable pub skip_name : Bytes → ℕ → Outcome OutOfFuel (Option ℕ)
unfolding skip_loop
skip_name d start = skip_loop d (suc (length d)) start
