-- ===== src/Pool/Tallied.antt =====
-- Under which key the statistics of crates/proxy-core/src/pool/statistics.rs file a
-- proxy.
use Prim.Native.Nat.{Ordering}
use proxy_switcher.Address.{IpAddr}
use proxy_switcher.Common.{
  ℕ, ◌+◌, ◌≡◌, inl, inr, refl, ap, Bool, true, false, ◌&&◌, List, [], ◌∷◌, arith, if◌then◌else◌,
  length, select, Bool-cases,
}
use proxy_switcher.Common.Text.{Text}
use proxy_switcher.Credentials.Policy.{protocol_eq}
use proxy_switcher.Pool.Discovery.{sort_by, insert_sorted}
use proxy_switcher.Pool.Statistics.{
  Counted, plus_if, count_key, Counts, count_proxy, count_each, anonymity_eq,
}
use proxy_switcher.Pool.Select.{is_working}
use proxy_switcher.Pool.Types.{
  Floats, ProxyInfo, ProxyProtocol, http, https, socks4, socks5, trojan, shadowsocks, Anonymity,
  transparent, anonymous, elite, unknown,
}

module _ {K : Type 0} (same : K → K → Bool) where
  -- How many entries are counted under a key, and how many of them work.
  abbrev pub counted_as : K → List (Counted K) → ℕ
  counted_as k [] = 0
  counted_as k (e ∷ es) = if same e.key k then e.count + counted_as k es else counted_as k es

  abbrev pub working_as : K → List (Counted K) → ℕ
  working_as k [] = 0
  working_as k (e ∷ es) = if same e.key k then e.working + working_as k es else working_as k es

  counted_as-count_key :
      (k j : K) (works : Bool) (es : List (Counted K))
      → ((a b : K) → same a b ≡ true → a ≡ b)
      → counted_as k (count_key same j works es) ≡ counted_as k es + (if same j k then 1 else 0)
  unfolding count_key
  counted_as-count_key k j works [] sound = ground arith
  counted_as-count_key k j works (e ∷ es) sound = elim (Bool-cases (same e.key j)) [
    | inl t ↦ rw (t, count_key) (ground (arith, ap (λ x. same x k) (sound e.key j t)))
    | inr f ↦ rw (f, count_key) (ground (arith, counted_as-count_key k j works es sound))
  ]

  working_as-count_key :
      (k j : K) (works : Bool) (es : List (Counted K))
      → ((a b : K) → same a b ≡ true → a ≡ b)
      → working_as k (count_key same j works es)
        ≡ working_as k es + (if same j k then plus_if works 0 else 0)
  unfolding count_key
  working_as-count_key k j true [] sound = ground arith
  working_as-count_key k j false [] sound = ground arith
  working_as-count_key k j true (e ∷ es) sound = elim (Bool-cases (same e.key j)) [
    | inl t ↦ rw (t, count_key) (ground (arith, ap (λ x. same x k) (sound e.key j t)))
    | inr f ↦ rw (f, count_key) (ground (arith, working_as-count_key k j true es sound))
  ]
  working_as-count_key k j false (e ∷ es) sound = elim (Bool-cases (same e.key j)) [
    | inl t ↦ rw (t, count_key) (ground (arith, ap (λ x. same x k) (sound e.key j t)))
    | inr f ↦ rw (f, count_key) (ground (arith, working_as-count_key k j false es sound))
  ]

  -- Sorting keeps what is counted under a key.
  as-insert_sorted :
      (cmp : Counted K → Counted K → Ordering) (k : K) (e : Counted K) (es : List (Counted K))
      → (counted_as k (insert_sorted cmp e es) ≡ counted_as k (e ∷ es))
        × (working_as k (insert_sorted cmp e es) ≡ working_as k (e ∷ es))
  unfolding insert_sorted
  as-insert_sorted cmp k e [] = (refl, refl)
  as-insert_sorted cmp k e (x ∷ es) =
      let (a, b) = as-insert_sorted cmp k e es in (ground (arith, a), ground (arith, b))

  pub as-sort_by :
      (cmp : Counted K → Counted K → Ordering) (k : K) (es : List (Counted K))
      → (counted_as k (sort_by cmp es) ≡ counted_as k es)
        × (working_as k (sort_by cmp es) ≡ working_as k es)
  unfolding sort_by
  as-sort_by cmp k [] = (refl, refl)
  as-sort_by cmp k (e ∷ es) =
      let (a, b) = as-sort_by cmp k es in
      let (c, d) = as-insert_sorted cmp k e (sort_by cmp es) in
      (ground (arith, a, c), ground (arith, b, d))

protocol_eq_sound : (a b : ProxyProtocol) → protocol_eq a b ≡ true → a ≡ b
unfolding protocol_eq
protocol_eq_sound http b h = ground (arith, h)
protocol_eq_sound https b h = ground (arith, h)
protocol_eq_sound socks4 b h = ground (arith, h)
protocol_eq_sound socks5 b h = ground (arith, h)
protocol_eq_sound trojan b h = ground (arith, h)
protocol_eq_sound shadowsocks b h = ground (arith, h)

anonymity_eq_sound : (a b : Anonymity) → anonymity_eq a b ≡ true → a ≡ b
anonymity_eq_sound transparent b h = ground (arith, h)
anonymity_eq_sound anonymous b h = ground (arith, h)
anonymity_eq_sound elite b h = ground (arith, h)
anonymity_eq_sound unknown b h = ground (arith, h)

module _ (fl : Floats) (show_ip : IpAddr → Text) (min_score : fl.F) (now : ℕ) where
  open fl use {F}

  -- Each protocol has the proxies that speak it, and each class those that are of it.
  pub record Filed (ps : List (ProxyInfo F)) (c c' : Counts fl show_ip) : Type 0 where
    pub protocol :
        (k : ProxyProtocol)
        → counted_as protocol_eq k c'.protocols
          ≡ counted_as protocol_eq k c.protocols
            + length (select (λ p. protocol_eq p.protocol k) ps)
    pub protocol_works :
        (k : ProxyProtocol)
        → working_as protocol_eq k c'.protocols
          ≡ working_as protocol_eq k c.protocols
            + length (select (λ p. protocol_eq p.protocol k && is_working fl p) ps)
    pub anonymity :
        (k : Anonymity)
        → counted_as anonymity_eq k c'.anonymities
          ≡ counted_as anonymity_eq k c.anonymities
            + length (select (λ p. anonymity_eq p.anonymity k) ps)
    pub anonymity_works :
        (k : Anonymity)
        → working_as anonymity_eq k c'.anonymities
          ≡ working_as anonymity_eq k c.anonymities
            + length (select (λ p. anonymity_eq p.anonymity k && is_working fl p) ps)

  -- A working proxy under a key, in front of what is counted behind it.
  added :
      (b w : Bool) (n m t : ℕ) (p : ProxyInfo F) (ps : List (ProxyInfo F))
      → n ≡ m + length ps
      → m ≡ t + (if b then plus_if w 0 else 0)
      → n ≡ t + length (if b && w then p ∷ ps else ps)
  added true true n m t p ps e f = omega (arith, e, f)
  added true false n m t p ps e f = omega (arith, e, f)
  added false true n m t p ps e f = omega (arith, e, f)
  added false false n m t p ps e f = omega (arith, e, f)

  pub count_each-Filed :
      (ps : List (ProxyInfo F)) (c : Counts fl show_ip)
      → Filed ps c (count_each fl show_ip min_score now ps c)
  unfolding count_each count_proxy
  count_each-Filed [] c = record {
    protocol = λ k. omega arith;
    protocol_works = λ k. omega arith;
    anonymity = λ k. omega arith;
    anonymity_works = λ k. omega arith;
  }
  count_each-Filed (p ∷ ps) c =
      let c' = count_proxy fl show_ip min_score now p c in
      let f = count_each-Filed ps c' in
      let w = is_working fl p in
      record {
        protocol = λ k. ground (
          arith,
          f.protocol k,
          counted_as-count_key protocol_eq k p.protocol w c.protocols protocol_eq_sound,
        );
        protocol_works = λ k.
            added (protocol_eq p.protocol k) w _ _ _ p _ (f.protocol_works k)
              (working_as-count_key protocol_eq k p.protocol w c.protocols protocol_eq_sound);
        anonymity = λ k. ground (
          arith,
          f.anonymity k,
          counted_as-count_key anonymity_eq k p.anonymity w c.anonymities anonymity_eq_sound,
        );
        anonymity_works = λ k.
            added (anonymity_eq p.anonymity k) w _ _ _ p _ (f.anonymity_works k)
              (working_as-count_key anonymity_eq k p.anonymity w c.anonymities anonymity_eq_sound);
      }
