-- ===== src/Tests/Countries.antt =====
-- The country database: the theorems at a database read from two lines.
use proxy_switcher.Address.{Ipv4Addr, v4}
use proxy_switcher.Common.{◌≡◌, inl, inr, refl, arith, some, [], ◌∷◌, ◌++◌}
use proxy_switcher.Common.Text.{Text, codes, equal}
use proxy_switcher.Geo.{GeoDatabase, lookup, flag, from_csv}
use proxy_switcher.Geo.Finds.{lookup-Holds}

abbrev listed : Text
listed = codes "8.8.8.0,8.8.8.255,us" ++ 10 ∷ codes "# none" ++ 10 ∷ codes "1.0.0.0, 1.0.0.255 ,AU"

abbrev database : GeoDatabase
database = record {
  ranges =
      record { start = 16777216; end_ = 16777471; country = 1 }
      ∷ record { start = 134744064; end_ = 134744319; country = 0 }
      ∷ [];
  codes = codes "US" ∷ codes "AU" ∷ [];
}

from_csv-listed : from_csv listed ≡ database
unfolding from_csv equal
from_csv-listed = refl

flag_us : flag (codes " us") ≡ some (0x1f1fa ∷ 0x1f1f8 ∷ [])
unfolding flag
flag_us = refl

abbrev resolver : Ipv4Addr
resolver = record { a = 8; b = 8; c = 8; d = 8 }

lookup-resolver : lookup database (v4 resolver) ≡ some (codes "US")
unfolding lookup
lookup-resolver = refl

lookup-Holds_example : lookup database (v4 resolver) ≡ some (codes "US")
lookup-Holds_example =
    lookup-Holds database resolver (record { start = 134744064; end_ = 134744319; country = 0 })
      (omega arith, (omega arith, tt), (omega arith, tt, tt)) (inr (inl refl))
      (omega arith, omega arith)
