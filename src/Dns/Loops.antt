-- ===== src/Dns/Loops.antt =====
-- A compressed name that points to itself.
use proxy_switcher.Common.{
  ℕ, zero, suc, ◌+◌, ◌*◌, ◌≡◌, refl, arith, get_elem?, Option, none, some, List, [], lt-get_elem?,
}
use Prim.Native.Nat.{bit_and}
use proxy_switcher.Common.Outcome.{Bytes, err, byte_at, ◌>>=◌}
use proxy_switcher.Common.Text.{Text}
use proxy_switcher.Dns.Names.{out_of_fuel, name_loop, decode_name, end_or}

self_pointer-name_loop :
    (d : Bytes) (at high low fuel : ℕ) (labels : List Text) (behind : Option ℕ)
    → get_elem? d at ≡ some high
    → get_elem? d (at + 1) ≡ some low
    → bit_and high 0xc0 ≡ 0xc0
    → bit_and high 0x3f * 256 + low ≡ at
    → name_loop d fuel labels at behind ≡ err out_of_fuel
unfolding name_loop byte_at ◌>>=◌
self_pointer-name_loop d at high low zero labels behind eh el tag there = refl
self_pointer-name_loop d at high low (suc fuel) labels behind eh el tag there =
    let rest =
      self_pointer-name_loop d at high low fuel labels (some (end_or behind (at + 2))) eh el tag
        there in
    ground (arith, rest, lt-get_elem? d at eh, lt-get_elem? d (at + 1) el)

-- A name whose compression pointer points to itself is never decoded: with any amount of fuel,
-- `decode_name` is still in its loop.
pub self_pointer-decode_name :
    (d : Bytes) (at high low fuel : ℕ)
    → get_elem? d at ≡ some high
    → get_elem? d (at + 1) ≡ some low
    → bit_and high 0xc0 ≡ 0xc0
    → bit_and high 0x3f * 256 + low ≡ at
    → decode_name fuel d at ≡ err out_of_fuel
unfolding decode_name
self_pointer-decode_name d at high low fuel eh el tag there =
    rw (self_pointer-name_loop d at high low fuel [] none eh el tag there) refl
