-- ===== src/Pool/Statistics.antt =====
-- crates/proxy-core/src/pool/statistics.rs. A `HashMap` of counts is a list of entries, in the order in
-- which their keys come up; the source leaves the order of equal counts open.
use Prim.Native.Nat.{Ordering, compare}
use proxy_switcher.Address.{IpAddr}
use proxy_switcher.Common.{
  ℕ, suc, ◌+◌, Bool, true, false, ◌&&◌, Option, none, some, List, [], ◌∷◌, if◌then◌else◌, leb, ltb,
  length, modify, take,
}
use proxy_switcher.Common.Text.{Text, equal}
use proxy_switcher.Credentials.Policy.{protocol_eq}
use proxy_switcher.Pool.Discovery.{sort_by}
use proxy_switcher.Pool.Select.{is_working}
use proxy_switcher.Pool.State.{PoolInner, insert_key}
use proxy_switcher.Pool.Types.{
  Floats, ProxyInfo, ProxyProtocol, Anonymity, transparent, anonymous, elite, unknown,
}

-- How many proxies have a key, and how many of them work.
pub record Counted (K : Type 0) : Type 0 where
  pub key : K
  pub count : ℕ
  pub working : ℕ

pub record LatencyBucket : Type 0 where
  pub from_ms : ℕ
  pub to_ms : Option ℕ
  pub count : ℕ

pub record PoolStatistics : Type 0 where
  pub pool_size : ℕ
  pub working : ℕ
  pub tunnel_capable : ℕ
  pub unverified : ℕ
  pub below_threshold : ℕ
  pub due : ℕ
  pub by_protocol : List (Counted ProxyProtocol)
  pub by_anonymity : List (Counted Anonymity)
  pub by_country : List (Counted Text)
  pub latency : List LatencyBucket
  pub distinct_exit_addresses : ℕ

-- `LATENCY_BUCKETS`
abbrev pub latency_buckets : List (ℕ × Option ℕ)
latency_buckets =
    (0, some 100)
    ∷ (100, some 300)
    ∷ (300, some 600)
    ∷ (600, some 1000)
    ∷ (1000, some 2000)
    ∷ (2000, some 5000)
    ∷ (5000, none)
    ∷ []

abbrev pub is_below : ℕ → Option ℕ → Bool
is_below latency_ms none = true
is_below latency_ms (some upper) = ltb latency_ms upper

-- The place of the range that a latency is in, or of the last one.
abbrev pub bucket_of : ℕ → List (ℕ × Option ℕ) → ℕ
bucket_of latency_ms [] = 0
bucket_of latency_ms (b ∷ []) = 0
bucket_of latency_ms ((from, to) ∷ b ∷ bs) =
    let later = bucket_of latency_ms (b ∷ bs) in
    if leb from latency_ms && is_below latency_ms to then 0 else suc later

-- `==` on what a proxy reveals
abbrev pub anonymity_eq : Anonymity → Anonymity → Bool
anonymity_eq transparent transparent = true
anonymity_eq anonymous anonymous = true
anonymity_eq elite elite = true
anonymity_eq unknown unknown = true
anonymity_eq _ _ = false

-- `if is_working { … += 1 }`
abbrev pub plus_if : Bool → ℕ → ℕ
plus_if true n = n + 1
plus_if false n = n

module _ {K : Type 0} (same : K → K → Bool) where
  -- `entry(key).or_insert((0, 0))`, counted up.
  unfoldable pub count_key : K → Bool → List (Counted K) → List (Counted K)
  count_key k works [] = record { key = k; count = 1; working = plus_if works 0 } ∷ []
  count_key k works (e ∷ es) =
      let later = count_key k works es in
      if same e.key k
      then record e { count = e.count + 1; working = plus_if works e.working } ∷ es
      else e ∷ later

abbrev pub count_country : Option Text → Bool → List (Counted Text) → List (Counted Text)
count_country none works es = es
count_country (some country) works es = count_key equal country works es

abbrev pub count_latency : Option ℕ → List ℕ → List ℕ
count_latency none counts = counts
count_latency (some latency_ms) counts =
    modify counts (bucket_of latency_ms latency_buckets) (λ n. n + 1)

-- The largest count first.
abbrev pub larger_first : {K : Type 0} → Counted K → Counted K → Ordering
larger_first x y = compare y.count x.count

abbrev pub bucket_counts : List (ℕ × Option ℕ) → List ℕ → List LatencyBucket
bucket_counts [] counts = []
bucket_counts (b ∷ bs) [] = []
bucket_counts ((from, to) ∷ bs) (n ∷ counts) =
    record { from_ms = from; to_ms = to; count = n } ∷ bucket_counts bs counts

module _ (fl : Floats) (show_ip : IpAddr → Text) where
  open fl use {F, ge}

  abbrev pub with_exit : Option IpAddr → List Text → List Text
  with_exit none exits = exits
  with_exit (some exit) exits = insert_key (show_ip exit) exits

  -- What the loop counts.
  pub record Counts : Type 0 where
    pub protocols : List (Counted ProxyProtocol)
    pub anonymities : List (Counted Anonymity)
    pub countries : List (Counted Text)
    pub latency : List ℕ
    pub exit_addresses : List Text
    pub working : ℕ
    pub tunnel_capable : ℕ
    pub unverified : ℕ
    pub below_threshold : ℕ
    pub due : ℕ

  module _ (min_score : F) (now : ℕ) where
    unfoldable pub count_proxy : ProxyInfo F → Counts → Counts
    unfolding count_key protocol_eq equal
    count_proxy p c =
        let works = is_working fl p in
        let capable = p.supports_tunnel && ge p.score min_score in
        record {
          protocols = count_key protocol_eq p.protocol works c.protocols;
          anonymities = count_key anonymity_eq p.anonymity works c.anonymities;
          countries = count_country p.country works c.countries;
          latency = count_latency p.latency_ms c.latency;
          exit_addresses = with_exit p.exit_ip c.exit_addresses;
          working = plus_if works c.working;
          tunnel_capable = if works then plus_if capable c.tunnel_capable else c.tunnel_capable;
          unverified = if works then c.unverified else c.unverified + 1;
          below_threshold =
              if works
              then (if capable then c.below_threshold else c.below_threshold + 1)
              else c.below_threshold;
          due = plus_if (leb p.next_probe_at now) c.due;
        }

    -- The loop over the pool.
    unfoldable pub count_each : List (ProxyInfo F) → Counts → Counts
    unfolding count_proxy
    count_each [] c = c
    count_each (p ∷ ps) c = count_each ps (count_proxy p c)

    abbrev pub no_counts : Counts
    no_counts = record {
      protocols = [];
      anonymities = [];
      countries = [];
      latency = 0 ∷ 0 ∷ 0 ∷ 0 ∷ 0 ∷ 0 ∷ 0 ∷ [];
      exit_addresses = [];
      working = 0;
      tunnel_capable = 0;
      unverified = 0;
      below_threshold = 0;
      due = 0;
    }

    abbrev pub statistics_of : ℕ → Counts → PoolStatistics
    statistics_of pool_size c = record {
      pool_size = pool_size;
      working = c.working;
      tunnel_capable = c.tunnel_capable;
      unverified = c.unverified;
      below_threshold = c.below_threshold;
      due = c.due;
      by_protocol = sort_by larger_first c.protocols;
      by_anonymity = sort_by larger_first c.anonymities;
      by_country = take 20 (sort_by larger_first c.countries);
      latency = bucket_counts latency_buckets c.latency;
      distinct_exit_addresses = length c.exit_addresses;
    }

    -- `statistics`
    unfoldable pub statistics : PoolInner F → PoolStatistics
    unfolding count_each sort_by
    statistics inner = statistics_of (length inner.proxies) (count_each inner.proxies no_counts)
