-- ===== src/Geo.antt =====
-- The country database: crates/proxy-core/src/geo.rs. A search by bisection on a sorted list finds the
-- number of entries in front that pass the test; the sort may place entries of one start in any
-- order, and here it keeps them in theirs.
use mathlib.Core.Option
use Prim.Native.Nat.{compare}
use proxy_switcher.Address.{Ipv4Addr, IpAddr, v4, v6, to_u32}
use proxy_switcher.Common.{
  ℕ, zero, suc, ◌+◌, ◌-◌, ◌*◌, ◌%◌, ◌^◌, Bool, true, false, not, ◌&&◌, ◌||◌, Option, none, some,
  List, [], ◌∷◌, ◌++◌, map, if◌then◌else◌, leb, ◌==◌, length, get_elem?, any, is_empty,
}
use proxy_switcher.Common.Text.{Text, trim, split, parse_uint}
use proxy_switcher.Pool.Discovery.{sort_by}
use proxy_switcher.Pool.Index.{position}
pub mod Finds

pub record Range : Type 0 where
  pub start : ℕ
  pub end_ : ℕ
  pub country : ℕ

pub record GeoDatabase : Type 0 where
  pub ranges : List Range
  pub codes : List Text

-- `to_ascii_uppercase`, `is_ascii_alphabetic` of an upper-case text
abbrev pub to_upper : ℕ → ℕ
to_upper c = if leb b'a' c && leb c b'z' then c - 32 else c

abbrev pub is_code : Text → Bool
is_code t = length t == 2 && not (any (λ c. not (leb b'A' c && leb c b'Z')) t)

-- `flag`
unfoldable pub flag : Text → Option Text
unfolding trim
flag code =
    let upper = map to_upper (trim code) in
    if is_code upper then some (map (λ c. 0x1f1e6 + (c - b'A')) upper) else none

abbrev pub joined : Option ℕ → Option ℕ → Option ℕ → Option ℕ → Option ℕ
joined (some a) (some b) (some c) (some d) = some (((a * 256 + b) * 256 + c) * 256 + d)
joined _ _ _ _ = none

abbrev pub of_parts : List Text → Option ℕ
of_parts (a ∷ b ∷ c ∷ d ∷ []) =
    joined (parse_uint 255 a) (parse_uint 255 b) (parse_uint 255 c) (parse_uint 255 d)
of_parts _ = none

-- `parse_ipv4` of the database
unfoldable pub parse_address : Text → Option ℕ
unfolding split parse_uint
parse_address text = of_parts (split b'.' text)

-- The place of a code in the list, which it joins if it is new.
abbrev pub intern_at : Option ℕ → Text → List Text → List Text × ℕ
intern_at (some i) code codes = (codes, i)
intern_at none code codes = (codes ++ code ∷ [], length codes)

abbrev pub add_range : Option ℕ → Option ℕ → Text → GeoDatabase → GeoDatabase
add_range (some first) (some last) code db =
    if is_code code
    then (let (codes, i) = intern_at (position code db.codes) code db.codes in
        record {
          ranges = db.ranges ++ record { start = first; end_ = last; country = i % 2 ^ 16 } ∷ [];
          codes = codes;
        })
    else db
add_range _ _ code db = db

abbrev pub read_fields : List Text → GeoDatabase → GeoDatabase
read_fields (first ∷ last ∷ code ∷ rest) db =
    add_range (parse_address (trim first)) (parse_address (trim last)) (map to_upper (trim code)) db
read_fields _ db = db

abbrev pub read_line : Text → GeoDatabase → GeoDatabase
read_line [] db = db
read_line (c ∷ s) db = if c == b'#' then db else read_fields (split b',' (c ∷ s)) db

unfoldable pub read_lines : List Text → GeoDatabase → GeoDatabase
unfolding trim split parse_address position
read_lines [] db = db
read_lines (line ∷ lines) db = read_lines lines (read_line (trim line) db)

-- `from_csv`
unfoldable pub from_csv : Text → GeoDatabase
unfolding read_lines sort_by split
from_csv body =
    let db = read_lines (split 10 body) (record { ranges = []; codes = [] }) in
    record db { ranges = sort_by (λ a b. compare a.start b.start) db.ranges }

-- `partition_point`
unfoldable pub partition_point : (Range → Bool) → List Range → ℕ
partition_point p [] = 0
partition_point p (r ∷ rs) = let rest = partition_point p rs in if p r then suc rest else 0

-- `ranges[partition_point - 1]`
abbrev pub before : List Range → ℕ → Option Range
before rs zero = none
before rs (suc i) = get_elem? rs i

abbrev pub country_in : GeoDatabase → ℕ → Option Range → Option Text
country_in db address none = none
country_in db address (some r) = if leb address r.end_ then get_elem? db.codes r.country else none

-- `lookup`
unfoldable pub lookup : GeoDatabase → IpAddr → Option Text
unfolding partition_point
lookup db (v4 ip) =
    country_in db (to_u32 ip)
      (before db.ranges (partition_point (λ r. leb r.start (to_u32 ip)) db.ranges))
lookup db (v6 n) = none
