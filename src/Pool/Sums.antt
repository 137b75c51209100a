-- ===== src/Pool/Sums.antt =====
-- The counts of the pool's statistics add up.
use Prim.Native.Nat.{Ordering}
use proxy_switcher.Address.{IpAddr}
use proxy_switcher.Common.{
  ℕ, zero, suc, ◌+◌, ◌≤◌, ◌<◌, ◌≡◌, refl, ap, ◌∙◌, Bool, true, false, ◌&&◌, Option, none, some,
  List, [], ◌∷◌, arith, if◌then◌else◌, leb, length, modify, select, length-modify, length-take,
}
use proxy_switcher.Common.Text.{Text}
use proxy_switcher.Credentials.Policy.{protocol_eq}
use proxy_switcher.Pool.Discovery.{sort_by, insert_sorted}
use proxy_switcher.Pool.Select.{is_working, is_usable, working_count, tunnel_capable, due_count}
use proxy_switcher.Pool.State.{PoolInner}
use proxy_switcher.Pool.Statistics.{
  Counted, LatencyBucket, PoolStatistics, latency_buckets, bucket_of, anonymity_eq, plus_if,
  count_key, count_latency, larger_first, bucket_counts, Counts, count_proxy, count_each, no_counts,
  statistics,
}
use proxy_switcher.Pool.Ranged.{ranges, latency-ranges}
use proxy_switcher.Pool.Tallied.{counted_as, working_as, as-sort_by, count_each-Filed}
use proxy_switcher.Pool.Types.{Floats, ProxyInfo, ProxyProtocol, Anonymity, is_some}

module _ {K : Type 0} where
  abbrev pub total : List (Counted K) → ℕ
  total [] = 0
  total (e ∷ es) = e.count + total es

  abbrev pub total_working : List (Counted K) → ℕ
  total_working [] = 0
  total_working (e ∷ es) = e.working + total_working es

  total-count_key :
      (same : K → K → Bool) (k : K) (works : Bool) (es : List (Counted K))
      → total (count_key same k works es) ≡ total es + 1
  unfolding count_key
  total-count_key same k works [] = refl
  total-count_key same k works (e ∷ es) = ground (arith, total-count_key same k works es)

  total_working-count_key :
      (same : K → K → Bool) (k : K) (works : Bool) (es : List (Counted K))
      → total_working (count_key same k works es) ≡ plus_if works (total_working es)
  unfolding count_key
  total_working-count_key same k true [] = refl
  total_working-count_key same k false [] = refl
  total_working-count_key same k true (e ∷ es) =
      ground (arith, total_working-count_key same k true es)
  total_working-count_key same k false (e ∷ es) =
      ground (arith, total_working-count_key same k false es)

  -- Sorting keeps the sums.
  total-insert_sorted :
      (cmp : Counted K → Counted K → Ordering) (e : Counted K) (es : List (Counted K))
      → (total (insert_sorted cmp e es) ≡ e.count + total es)
        × (total_working (insert_sorted cmp e es) ≡ e.working + total_working es)
  unfolding insert_sorted
  total-insert_sorted cmp e [] = (refl, refl)
  total-insert_sorted cmp e (x ∷ es) =
      let (a, b) = total-insert_sorted cmp e es in (ground (arith, a), ground (arith, b))

  total-sort_by :
      (cmp : Counted K → Counted K → Ordering) (es : List (Counted K))
      → (total (sort_by cmp es) ≡ total es) × (total_working (sort_by cmp es) ≡ total_working es)
  unfolding sort_by
  total-sort_by cmp [] = (refl, refl)
  total-sort_by cmp (e ∷ es) =
      let (a, b) = total-sort_by cmp es in
      let (c, d) = total-insert_sorted cmp e (sort_by cmp es) in
      (omega (arith, a, c), omega (arith, b, d))

abbrev pub sum : List ℕ → ℕ
sum [] = 0
sum (n ∷ ns) = n + sum ns

abbrev pub total_latency : List LatencyBucket → ℕ
total_latency [] = 0
total_latency (b ∷ bs) = b.count + total_latency bs

sum-modify : (ns : List ℕ) (i : ℕ) → i < length ns → sum (modify ns i (λ n. n + 1)) ≡ sum ns + 1
sum-modify [] i h = absurd (omega (arith, h))
sum-modify (n ∷ ns) zero h = omega arith
sum-modify (n ∷ ns) (suc i) h = omega (arith, sum-modify ns i (omega (arith, h)))

bucket_of-lt :
    (ms : ℕ) (b : ℕ × Option ℕ) (bs : List (ℕ × Option ℕ)) → bucket_of ms (b ∷ bs) < suc (length bs)
bucket_of-lt ms b [] = omega arith
bucket_of-lt ms (from, to) (c ∷ bs) = ground (arith, bucket_of-lt ms c bs)

total-bucket_counts :
    (bs : List (ℕ × Option ℕ)) (ns : List ℕ)
    → length ns ≡ length bs
    → total_latency (bucket_counts bs ns) ≡ sum ns
total-bucket_counts [] [] h = refl
total-bucket_counts [] (n ∷ ns) h = absurd (omega (arith, h))
total-bucket_counts (b ∷ bs) [] h = absurd (omega (arith, h))
total-bucket_counts ((from, to) ∷ bs) (n ∷ ns) h =
    ap (λ k. n + k) (total-bucket_counts bs ns (omega (arith, h)))

module _ (fl : Floats) (show_ip : IpAddr → Text) where
  open fl use {F}

  abbrev pub has_latency : ProxyInfo F → Bool
  has_latency p = is_some p.latency_ms

  -- What one proxy adds to the counts, and what a list does.
  pub record Grows (min_score : F) (now : ℕ) (ps : List (ProxyInfo F)) (c c' : Counts fl show_ip)
      : Type 0 where
    pub works : c'.working ≡ c.working + length (select (is_working fl) ps)
    pub capable : c'.tunnel_capable ≡ c.tunnel_capable + length (select (is_usable fl min_score) ps)
    pub all : c'.working + c'.unverified ≡ c.working + c.unverified + length ps
    pub parts :
        c'.tunnel_capable + c'.below_threshold + c.working
        ≡ c.tunnel_capable + c.below_threshold + c'.working
    pub waiting : c'.due ≡ c.due + length (select (λ p. leb p.next_probe_at now) ps)
    pub protocols : total c'.protocols ≡ total c.protocols + length ps
    pub protocols_work :
        total_working c'.protocols ≡ total_working c.protocols + length (select (is_working fl) ps)
    pub anonymities : total c'.anonymities ≡ total c.anonymities + length ps
    pub anonymities_work :
        total_working c'.anonymities
        ≡ total_working c.anonymities + length (select (is_working fl) ps)
    pub latencies : sum c'.latency ≡ sum c.latency + length (select has_latency ps)
    pub buckets : length c'.latency ≡ 7

  latency_counted :
      (o : Option ℕ) (ns : List ℕ)
      → length ns ≡ 7
      → (sum (count_latency o ns) ≡ (if is_some o then sum ns + 1 else sum ns))
        × (length (count_latency o ns) ≡ 7)
  latency_counted none ns h = (refl, h)
  latency_counted (some ms) ns h =
      let i = bucket_of ms latency_buckets in
      let inside =
        bucket_of-lt ms (0, some 100)
          ((100, some 300)
            ∷ (300, some 600)
            ∷ (600, some 1000)
            ∷ (1000, some 2000)
            ∷ (2000, some 5000)
            ∷ (5000, none)
            ∷ []) in
      (sum-modify ns i (omega (arith, h, inside)), length-modify ns i (λ n. n + 1) ∙ h)

  count_proxy-Grows :
      (min_score : F) (now : ℕ) (p : ProxyInfo F) (c : Counts fl show_ip)
      → length c.latency ≡ 7
      → Grows min_score now (p ∷ []) c (count_proxy fl show_ip min_score now p c)
  unfolding count_proxy
  count_proxy-Grows min_score now p c h =
      let w = is_working fl p in
      let a = total-count_key protocol_eq p.protocol w c.protocols in
      let b = total_working-count_key protocol_eq p.protocol w c.protocols in
      let d = total-count_key anonymity_eq p.anonymity w c.anonymities in
      let e = total_working-count_key anonymity_eq p.anonymity w c.anonymities in
      let (f, g) = latency_counted p.latency_ms c.latency h in
      record {
        works = ground arith;
        capable = ground arith;
        all = ground arith;
        parts = ground arith;
        waiting = ground arith;
        protocols = a;
        protocols_work = ground (arith, b);
        anonymities = d;
        anonymities_work = ground (arith, e);
        latencies = ground (arith, f);
        buckets = g;
      }

  length-select_cons :
      (f : ProxyInfo F → Bool) (p : ProxyInfo F) (ps : List (ProxyInfo F))
      → length (select f (p ∷ ps)) ≡ length (select f (p ∷ [])) + length (select f ps)
  length-select_cons f p ps = ground arith

  Grows-cons :
      (min_score : F) (now : ℕ) (p : ProxyInfo F) (ps : List (ProxyInfo F))
      (c c' c'' : Counts fl show_ip)
      → Grows min_score now (p ∷ []) c c'
      → Grows min_score now ps c' c''
      → Grows min_score now (p ∷ ps) c c''
  Grows-cons min_score now p ps c c' c'' g h =
      let w = length-select_cons (is_working fl) p ps in
      let u = length-select_cons (is_usable fl min_score) p ps in
      let d = length-select_cons (λ q. leb q.next_probe_at now) p ps in
      let l = length-select_cons has_latency p ps in
      record {
        works = omega (arith, g.works, h.works, w);
        capable = omega (arith, g.capable, h.capable, u);
        all = omega (arith, g.all, h.all);
        parts = omega (arith, g.parts, h.parts);
        waiting = omega (arith, g.waiting, h.waiting, d);
        protocols = omega (arith, g.protocols, h.protocols);
        protocols_work = omega (arith, g.protocols_work, h.protocols_work, w);
        anonymities = omega (arith, g.anonymities, h.anonymities);
        anonymities_work = omega (arith, g.anonymities_work, h.anonymities_work, w);
        latencies = omega (arith, g.latencies, h.latencies, l);
        buckets = h.buckets;
      }

  count_each-Grows :
      (min_score : F) (now : ℕ) (ps : List (ProxyInfo F)) (c : Counts fl show_ip)
      → length c.latency ≡ 7
      → Grows min_score now ps c (count_each fl show_ip min_score now ps c)
  unfolding count_each
  count_each-Grows min_score now [] c h = record {
    works = omega arith;
    capable = omega arith;
    all = omega arith;
    parts = omega arith;
    waiting = omega arith;
    protocols = omega arith;
    protocols_work = omega arith;
    anonymities = omega arith;
    anonymities_work = omega arith;
    latencies = omega arith;
    buckets = h;
  }
  count_each-Grows min_score now (p ∷ ps) c h =
      let c' = count_proxy fl show_ip min_score now p c in
      let g = count_proxy-Grows min_score now p c h in
      Grows-cons min_score now p ps c c' (count_each fl show_ip min_score now ps c') g
        (count_each-Grows min_score now ps c' g.buckets)

  -- The statistics are of one piece with the pool and with themselves.
  pub record AddsUp (min_score : F) (now : ℕ) (inner : PoolInner F) (s : PoolStatistics)
      : Type 0 where
    pub all : s.working + s.unverified ≡ s.pool_size
    pub size : s.pool_size ≡ length inner.proxies
    pub works : s.working ≡ working_count fl inner
    pub capable : s.tunnel_capable ≡ length (tunnel_capable fl inner min_score)
    pub parts : s.tunnel_capable + s.below_threshold ≡ s.working
    pub waiting : s.due ≡ due_count fl inner now
    pub protocols : total s.by_protocol ≡ s.pool_size
    pub protocols_work : total_working s.by_protocol ≡ s.working
    pub anonymities : total s.by_anonymity ≡ s.pool_size
    pub anonymities_work : total_working s.by_anonymity ≡ s.working
    pub countries : length s.by_country ≤ 20
    pub latencies : total_latency s.latency ≡ length (select has_latency inner.proxies)
    pub ranged : s.latency ≡ ranges (λ p. p.latency_ms) latency_buckets inner.proxies
    pub protocol :
        (k : ProxyProtocol)
        → counted_as protocol_eq k s.by_protocol
          ≡ length (select (λ p. protocol_eq p.protocol k) inner.proxies)
    pub protocol_works :
        (k : ProxyProtocol)
        → working_as protocol_eq k s.by_protocol
          ≡ length (select (λ p. protocol_eq p.protocol k && is_working fl p) inner.proxies)
    pub anonymity :
        (k : Anonymity)
        → counted_as anonymity_eq k s.by_anonymity
          ≡ length (select (λ p. anonymity_eq p.anonymity k) inner.proxies)
    pub anonymity_works :
        (k : Anonymity)
        → working_as anonymity_eq k s.by_anonymity
          ≡ length (select (λ p. anonymity_eq p.anonymity k && is_working fl p) inner.proxies)

  -- The statistics of any pool agree with the pool's own counts of the working proxies, of those that
  -- can carry a tunnel with the least score or more, and of those that are due. The working and all
  -- others make up the pool; the tunnel-capable and those counted below the threshold, which are all
  -- other working ones, make up the working. Under each protocol and each anonymity class there are as
  -- many proxies, and as many working ones, as the pool has of it, and together they make up the pool
  -- and its working part. Each latency range has the proxies whose latency is from its first
  -- millisecond on and below its bound, and together the ranges have every proxy with a latency. There
  -- are at most twenty countries.
  pub statistics-AddsUp :
      (min_score : F) (now : ℕ) (inner : PoolInner F)
      → AddsUp min_score now inner (statistics fl show_ip min_score now inner)
  unfolding statistics working_count tunnel_capable due_count
  statistics-AddsUp min_score now inner =
      let c =
        count_each fl show_ip min_score now inner.proxies (no_counts fl show_ip min_score now) in
      let g =
        count_each-Grows min_score now inner.proxies (no_counts fl show_ip min_score now) refl in
      let f =
        count_each-Filed fl show_ip min_score now inner.proxies
          (no_counts fl show_ip min_score now) in
      let (p, pw) = total-sort_by larger_first c.protocols in
      let (a, aw) = total-sort_by larger_first c.anonymities in
      record {
        all = omega (arith, g.all);
        size = refl;
        works = omega (arith, g.works);
        capable = omega (arith, g.capable);
        parts = omega (arith, g.parts);
        waiting = omega (arith, g.waiting);
        protocols = omega (arith, g.protocols, p);
        protocols_work = omega (arith, g.protocols_work, g.works, pw);
        anonymities = omega (arith, g.anonymities, a);
        anonymities_work = omega (arith, g.anonymities_work, g.works, aw);
        countries = omega (arith, length-take 20 (sort_by larger_first c.countries));
        latencies =
            total-bucket_counts latency_buckets c.latency g.buckets ∙ omega (arith, g.latencies);
        ranged = latency-ranges fl show_ip min_score now inner.proxies;
        protocol =
            λ k. omega (arith, f.protocol k, (as-sort_by protocol_eq larger_first k c.protocols).0);
        protocol_works = λ k.
            omega
              (arith, f.protocol_works k, (as-sort_by protocol_eq larger_first k c.protocols).1);
        anonymity = λ k.
            omega (arith, f.anonymity k, (as-sort_by anonymity_eq larger_first k c.anonymities).0);
        anonymity_works = λ k.
            omega (
              arith,
              f.anonymity_works k,
              (as-sort_by anonymity_eq larger_first k c.anonymities).1,
            );
      }
