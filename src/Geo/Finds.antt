-- ===== src/Geo/Finds.antt =====
-- What a lookup in the country database finds.
use proxy_switcher.Address.{Ipv4Addr, v4, to_u32}
use proxy_switcher.Common.{
  ℕ, zero, suc, ◌≤◌, ◌<◌, ◌≡◌, ◌⊎◌, inl, inr, refl, sym, ap, subst, ◌∙◌, Option, none, some, List,
  [], ◌∷◌, arith, if◌then◌else◌, leb, get_elem?,
}
use proxy_switcher.Common.Member.{In, In-get_elem?}
use proxy_switcher.Common.Text.{Text}
use proxy_switcher.Geo.{Range, GeoDatabase, partition_point, before, country_in, lookup}

-- The range holds the address.
abbrev pub Holds : Range → ℕ → Type 0
Holds r address = (r.start ≤ address) × (address ≤ r.end_)

-- Every range of a list begins behind a point.
abbrev pub AllBehind : ℕ → List Range → Type 0
AllBehind point [] = Unit {0}
AllBehind point (r ∷ rs) = (point < r.start) × AllBehind point rs

-- The ranges are sorted, and no two have an address in common.
abbrev pub AreApart : List Range → Type 0
AreApart [] = Unit {0}
AreApart (r ∷ rs) = (r.start ≤ r.end_) × AllBehind r.end_ rs × AreApart rs

partition_point-behind :
    (point address : ℕ) (rs : List Range)
    → address ≤ point
    → AllBehind point rs
    → partition_point (λ r. leb r.start address) rs ≡ 0
unfolding partition_point
partition_point-behind point address [] h a = refl
partition_point-behind point address (r ∷ rs) h a = ground arith

AllBehind-In :
    (point : ℕ) (rs : List Range) (r : Range) → AllBehind point rs → In r rs → point < r.start
AllBehind-In point [] r a m = absurd m
AllBehind-In point (x ∷ rs) r a (inl e) = subst (λ y. point < y.start) (sym e) a.0
AllBehind-In point (x ∷ rs) r a (inr m) = AllBehind-In point rs r a.1 m

-- A range in front of others, of which one is found.
before-later :
    (x : Range) (rs : List Range) (r : Range) (address n : ℕ)
    → x.start ≤ address
    → before rs n ≡ some r
    → before (x ∷ rs) (if leb x.start address then suc n else 0) ≡ some r
before-later x rs r address zero h e = cc
before-later x rs r address (suc n) h e = ground arith

before-first :
    (x : Range) (rs : List Range) (address n : ℕ)
    → x.start ≤ address
    → n ≡ 0
    → before (x ∷ rs) (if leb x.start address then suc n else 0) ≡ some x
before-first x rs address zero h e = ground arith
before-first x rs address (suc n) h e = absurd (omega arith)

before-Holds :
    (rs : List Range) (r : Range) (address : ℕ)
    → AreApart rs
    → In r rs
    → Holds r address
    → before rs (partition_point (λ x. leb x.start address) rs) ≡ some r
unfolding partition_point
before-Holds [] r address a m h = absurd m
before-Holds (x ∷ rs) r address a (inl e) h =
    let hx = subst (λ y. Holds y address) e h in
    before-first x rs address (partition_point (λ y. leb y.start address) rs) hx.0
      (partition_point-behind x.end_ address rs hx.1 a.1)
    ∙ ap some (sym e)
before-Holds (x ∷ rs) r address a (inr m) h =
    let behind = AllBehind-In x.end_ rs r a.1 m in
    before-later x rs r address (partition_point (λ y. leb y.start address) rs) (omega arith)
      (before-Holds rs r address a.2 m h)

-- In a database whose ranges are sorted and have no address in common, an address that one of its
-- ranges holds is looked up as the country of that range.
pub lookup-Holds :
    (db : GeoDatabase) (ip : Ipv4Addr) (r : Range)
    → AreApart db.ranges
    → In r db.ranges
    → Holds r (to_u32 ip)
    → lookup db (v4 ip) ≡ get_elem? db.codes r.country
unfolding lookup
lookup-Holds db ip r a m h =
    ap (country_in db (to_u32 ip)) (before-Holds db.ranges r (to_u32 ip) a m h) ∙ ground arith

-- What is in front of a place.
In-before : (rs : List Range) (n : ℕ) (r : Range) → before rs n ≡ some r → In r rs
In-before rs zero r e = cc
In-before rs (suc n) r e = In-get_elem? rs n r e

before-either :
    (x : Range) (rs : List Range) (r : Range) (address n : ℕ)
    → before (x ∷ rs) (if leb x.start address then suc n else 0) ≡ some r
    → (x.start ≤ address) × ((x ≡ r) ⊎ (before rs n ≡ some r))
before-either x rs r address zero e = (ground arith, inl (ground arith))
before-either x rs r address (suc n) e = (ground arith, inr (ground arith))

-- The entry in front of the partition point passes the test, whatever the order of the list.
before-starts :
    (rs : List Range) (r : Range) (address : ℕ)
    → before rs (partition_point (λ x. leb x.start address) rs) ≡ some r
    → r.start ≤ address
unfolding partition_point
before-starts [] r address e = cc
before-starts (x ∷ rs) r address e =
    let (hx, found) =
      before-either x rs r address (partition_point (λ y. leb y.start address) rs) e in
    elim found [
      | inl s ↦ subst (λ y. y.start ≤ address) s hx
      | inr s ↦ before-starts rs r address s
    ]

-- The country of a found range that holds the address.
country_in-found :
    (db : GeoDatabase) (address : ℕ) (r : Option Range) (code : Text)
    → country_in db address r ≡ some code
    → (range : Range) × (r ≡ some range)
      × (address ≤ range.end_)
      × (get_elem? db.codes range.country ≡ some code)
country_in-found db address none code e = cc
country_in-found db address (some r) code e = (r, refl, ground arith, ground arith)

-- Whatever the order of the ranges, a country that a lookup finds is that of a range of the
-- database that holds the address.
pub lookup_sound :
    (db : GeoDatabase) (ip : Ipv4Addr) (code : Text)
    → lookup db (v4 ip) ≡ some code
    → (r : Range) × In r db.ranges
      × Holds r (to_u32 ip)
      × (get_elem? db.codes r.country ≡ some code)
unfolding lookup
lookup_sound db ip code e =
    let point = partition_point (λ x. leb x.start (to_u32 ip)) db.ranges in
    let (r, found, h, c) = country_in-found db (to_u32 ip) (before db.ranges point) code e in
    (r, In-before db.ranges point r found, (before-starts db.ranges r (to_u32 ip) found, h), c)
