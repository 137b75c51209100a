-- ===== src/Pool/Ranged.antt =====
-- In which latency range the statistics of crates/proxy-core/src/pool/statistics.rs file a
-- proxy.
use proxy_switcher.Address.{IpAddr}
use proxy_switcher.Common.{
  ℕ, suc, ◌+◌, ◌≤◌, ◌<◌, ◌≡◌, inl, inr, refl, sym, ap, ◌∙◌, Bool, false, ◌&&◌, Option, none, some,
  List, [], ◌∷◌, arith, if◌then◌else◌, leb, ltb, length, map, modify, select, Bool-cases,
}
use proxy_switcher.Common.Text.{Text}
use proxy_switcher.Pool.Statistics.{
  LatencyBucket, latency_buckets, bucket_of, count_latency, bucket_counts, Counts, count_proxy,
  count_each, no_counts,
}
use proxy_switcher.Pool.Types.{Floats, ProxyInfo}

-- A latency in a range: from its first millisecond on, and below its bound, if it has one.
abbrev pub falls_into : ℕ × Option ℕ → Option ℕ → Bool
falls_into (from, to) none = false
falls_into (from, none) (some ms) = leb from ms
falls_into (from, some to) (some ms) = leb from ms && ltb ms to

abbrev tally : List (ℕ × Option ℕ) → List ℕ → Option ℕ → List ℕ
tally [] ns o = ns
tally (b ∷ bs) [] o = []
tally (b ∷ bs) (n ∷ ns) o = (if falls_into b o then n + 1 else n) ∷ tally bs ns o

-- Ranges that follow each other from a number on, the last one without a bound.
abbrev Follow : ℕ → List (ℕ × Option ℕ) → Type 0
Follow lo [] = ⊥
Follow lo ((from, none) ∷ []) = from ≡ lo
Follow lo ((from, none) ∷ b ∷ bs) = ⊥
Follow lo ((from, some to) ∷ bs) = (from ≡ lo) × (from ≤ to) × Follow to bs

tally-below :
    (lo ms : ℕ) (bs : List (ℕ × Option ℕ)) (ns : List ℕ)
    → Follow lo bs
    → ms < lo
    → tally bs ns (some ms) ≡ ns
tally-below lo ms [] ns f h = absurd f
tally-below lo ms ((from, none) ∷ []) [] f h = refl
tally-below lo ms ((from, none) ∷ []) (n ∷ ns) f h = ground (arith, f, h)
tally-below lo ms ((from, none) ∷ b ∷ bs) ns f h = absurd f
tally-below lo ms ((from, some to) ∷ bs) [] f h = refl
tally-below lo ms ((from, some to) ∷ bs) (n ∷ ns) (e, le, f) h =
    ground (arith, e, h, tally-below to ms bs ns f (omega (arith, e, le, h)))

modify-tally :
    (lo ms : ℕ) (bs : List (ℕ × Option ℕ)) (ns : List ℕ)
    → Follow lo bs
    → lo ≤ ms
    → length ns ≡ length bs
    → modify ns (bucket_of ms bs) (λ n. n + 1) ≡ tally bs ns (some ms)
modify-tally lo ms [] ns f h l = absurd f
modify-tally lo ms ((from, none) ∷ []) [] f h l = refl
modify-tally lo ms ((from, none) ∷ []) (n ∷ ns) f h l = ground (arith, f, h)
modify-tally lo ms ((from, none) ∷ b ∷ bs) ns f h l = absurd f
modify-tally lo ms ((from, some to) ∷ []) ns (e, le, f) h l = absurd f
modify-tally lo ms ((from, some to) ∷ b ∷ bs) [] (e, le, f) h l = absurd (omega (arith, l))
modify-tally lo ms ((from, some to) ∷ b ∷ bs) (n ∷ ns) (e, le, f) h l =
    elim (Bool-cases (ltb ms to)) [
      | inl t ↦ ground (arith, e, h, t, tally-below to ms (b ∷ bs) ns f (ground (arith, t)))
      | inr t ↦
          ground (
            arith,
            e,
            h,
            t,
            modify-tally to ms (b ∷ bs) ns f (ground (arith, t)) (omega (arith, l)),
          )
    ]

tally-none :
    (bs : List (ℕ × Option ℕ)) (ns : List ℕ) → length ns ≡ length bs → tally bs ns none ≡ ns
tally-none [] ns l = refl
tally-none (b ∷ bs) [] l = refl
tally-none (b ∷ bs) (n ∷ ns) l = ap (◌∷◌ n) (tally-none bs ns (omega (arith, l)))

length-tally :
    (bs : List (ℕ × Option ℕ)) (ns : List ℕ) (o : Option ℕ)
    → length ns ≡ length bs
    → length (tally bs ns o) ≡ length bs
length-tally [] ns o l = l
length-tally (b ∷ bs) [] o l = absurd (omega (arith, l))
length-tally (b ∷ bs) (n ∷ ns) o l = ap suc (length-tally bs ns o (omega (arith, l)))

latency-tally :
    (o : Option ℕ) (ns : List ℕ) → length ns ≡ 7 → count_latency o ns ≡ tally latency_buckets ns o
latency-tally none ns l = sym (tally-none latency_buckets ns l)
latency-tally (some ms) ns l =
    modify-tally 0 ms latency_buckets ns
      (
        refl,
        omega arith,
        (
          refl,
          omega arith,
          (refl, omega arith, (refl, omega arith, (refl, omega arith, (refl, omega arith, refl)))),
        ),
      )
      (omega arith) l

-- How many of a list fall into each range, on top of what was counted.
abbrev with_tallies : {A : Type 0} → (A → Option ℕ) → List (ℕ × Option ℕ) → List ℕ → List A → List ℕ
with_tallies latency [] ns ps = ns
with_tallies latency (b ∷ bs) [] ps = []
with_tallies latency (b ∷ bs) (n ∷ ns) ps =
    (n + length (select (λ p. falls_into b (latency p)) ps)) ∷ with_tallies latency bs ns ps

module _ {A : Type 0} (latency : A → Option ℕ) where
  with_tallies-cons :
      (bs : List (ℕ × Option ℕ)) (ns : List ℕ) (p : A) (ps : List A)
      → with_tallies latency bs (tally bs ns (latency p)) ps ≡ with_tallies latency bs ns (p ∷ ps)
  with_tallies-cons [] ns p ps = refl
  with_tallies-cons (b ∷ bs) [] p ps = refl
  with_tallies-cons (b ∷ bs) (n ∷ ns) p ps = ground (arith, with_tallies-cons bs ns p ps)

  with_tallies-nil : (bs : List (ℕ × Option ℕ)) (ns : List ℕ) → with_tallies latency bs ns [] ≡ ns
  with_tallies-nil [] ns = refl
  with_tallies-nil (b ∷ bs) [] = refl
  with_tallies-nil (b ∷ bs) (n ∷ ns) = ground (arith, with_tallies-nil bs ns)

-- The ranges, each with how many of a list fall into it.
abbrev pub ranges :
    {A : Type 0} → (A → Option ℕ) → List (ℕ × Option ℕ) → List A → List LatencyBucket
ranges latency [] ps = []
ranges latency ((from, to) ∷ bs) ps =
    record {
      from_ms = from;
      to_ms = to;
      count = length (select (λ p. falls_into (from, to) (latency p)) ps);
    }
    ∷ ranges latency bs ps

bucket_counts-ranges :
    {A : Type 0} (latency : A → Option ℕ) (bs : List (ℕ × Option ℕ)) (ps : List A)
    → bucket_counts bs (with_tallies latency bs (map (λ b. 0) bs) ps) ≡ ranges latency bs ps
bucket_counts-ranges latency [] ps = refl
bucket_counts-ranges latency ((from, to) ∷ bs) ps =
    ground (arith, bucket_counts-ranges latency bs ps)

module _ (fl : Floats) (show_ip : IpAddr → Text) (min_score : fl.F) (now : ℕ) where
  open fl use {F}

  abbrev latency_of : ProxyInfo F → Option ℕ
  latency_of p = p.latency_ms

  latencies_filed :
      (ps : List (ProxyInfo F)) (c : Counts fl show_ip)
      → length c.latency ≡ 7
      → (count_each fl show_ip min_score now ps c).latency
        ≡ with_tallies latency_of latency_buckets c.latency ps
  unfolding count_each count_proxy
  latencies_filed [] c l = sym (with_tallies-nil latency_of latency_buckets c.latency)
  latencies_filed (p ∷ ps) c l =
      let c' = count_proxy fl show_ip min_score now p c in
      let filed = latency-tally p.latency_ms c.latency l in
      let l' : length c'.latency ≡ 7 =
        ap length filed ∙ length-tally latency_buckets c.latency p.latency_ms l in
      latencies_filed ps c' l'
      ∙ ap (λ ns. with_tallies latency_of latency_buckets ns ps) filed
      ∙ with_tallies-cons latency_of latency_buckets c.latency p ps

  -- Each range of the latencies has the proxies whose latency is in it.
  pub latency-ranges :
      (ps : List (ProxyInfo F))
      → bucket_counts latency_buckets
          (count_each fl show_ip min_score now ps (no_counts fl show_ip min_score now)).latency
        ≡ ranges latency_of latency_buckets ps
  latency-ranges ps =
      ap (bucket_counts latency_buckets)
        (latencies_filed ps (no_counts fl show_ip min_score now) refl)
      ∙ bucket_counts-ranges latency_of latency_buckets ps
