-- ===== src/Pool/Chosen.antt =====
-- The proxy that the selections choose.
use Prim.Native.Nat.{Ordering}
use proxy_switcher.Address.{IpAddr}
use proxy_switcher.Common.{
  ℕ, ◌+◌, ◌≡◌, inl, inr, refl, sym, ap, subst, Bool, true, false, not, ◌&&◌, Option, none, some,
  List, [], ◌∷◌, arith, select, get_elem?, Bool-cases, Option-cases,
}
use proxy_switcher.Common.Member.{In, In-select, select-In}
use proxy_switcher.Common.Text.{Text}
use proxy_switcher.Credentials.Policy.{ProxyPolicy, allows}
use proxy_switcher.Pool.Discovery.{not_greater}
use proxy_switcher.Pool.Indexed.{IsIndexed, index_complete}
use proxy_switcher.Pool.Maximum.{AtMost, max_by-In, max_by-none, max_by-AllAtMost}
use proxy_switcher.Pool.Select.{
  max_by, is_usable, is_avoided, by_effective_score, best_avoiding, best_matching, active,
  activate_best_avoiding, activate_candidate,
}
use proxy_switcher.Pool.State.{PoolInner}
use proxy_switcher.Pool.Types.{Floats, ProxyInfo}

module _ {A : Type 0} (cmp : A → A → Ordering) (eligible : A → Bool) (xs : List A) where
  -- The choice is eligible, and no eligible one is greater; there is none only where none is
  -- eligible.
  abbrev pub IsBest : Option A → Type 0
  IsBest none = (q : A) → In q xs → eligible q ≡ false
  IsBest (some p) =
      In p xs × (eligible p ≡ true) × ((q : A) → In q xs → eligible q ≡ true → AtMost cmp q p)

  none_eligible : select eligible xs ≡ [] → (q : A) → In q xs → eligible q ≡ false
  none_eligible e q m = elim (Bool-cases (eligible q)) [
    | inl t ↦ absurd (subst (In q) e (In-select eligible xs q m t))
    | inr f ↦ f
  ]

  pub max_by-IsBest :
      ((a b : A) → not_greater (cmp a b) ≡ false → AtMost cmp b a)
      → ((a b c : A) → AtMost cmp a b → AtMost cmp b c → AtMost cmp a c)
      → IsBest (max_by cmp (select eligible xs))
  max_by-IsBest total trans = elim (Option-cases (max_by cmp (select eligible xs))) [
    | inl e ↦ rw e (none_eligible (max_by-none cmp (select eligible xs) e))
    | inr (p, e) ↦
        let (m, t) = select-In eligible xs p (max_by-In cmp (select eligible xs) p e) in
        let most = max_by-AllAtMost cmp total trans (select eligible xs) p e in
        rw e (m, t, λ q k u. most q (In-select eligible xs q k u))
  ]

module _ (fl : Floats) where
  open fl use {F}

  -- The order of the aged scores at a time: total and transitive, as it is where none is a NaN.
  abbrev pub Orders : ℕ → Type 0
  Orders now =
      ((a b : ProxyInfo F)
        → not_greater (by_effective_score fl now a b) ≡ false
        → AtMost (by_effective_score fl now) b a)
      × ((a b c : ProxyInfo F)
          → AtMost (by_effective_score fl now) a b
          → AtMost (by_effective_score fl now) b c
          → AtMost (by_effective_score fl now) a c)

  -- Where the aged scores are ordered, `best_matching` finds a proxy that works, carries tunnels,
  -- has the least score or more, is not avoided by id, host or exit, and that the policy allows,
  -- and no other such proxy has a greater aged score; it finds none only if there is none.
  pub best_matching-IsBest :
      (inner : PoolInner F) (min_score : F) (now : ℕ) (avoid : List Text)
      (avoid_exits : List IpAddr) (policy : ProxyPolicy F)
      → Orders now
      → IsBest
          (by_effective_score fl now)
          (λ p.
            not (is_avoided fl avoid avoid_exits p)
            && is_usable fl min_score p
            && allows fl policy p)
          inner.proxies
          (best_matching fl inner min_score now avoid avoid_exits policy)
  unfolding best_matching
  best_matching-IsBest inner min_score now avoid avoid_exits policy ordered =
      max_by-IsBest (by_effective_score fl now) _ inner.proxies ordered.0 ordered.1

  -- The choice, and the pool in which it is the active proxy.
  abbrev pub Activated :
      PoolInner F → Option (ProxyInfo F) → PoolInner F × Option (ProxyInfo F) → Type 0
  Activated inner choice result =
      (result.1 ≡ choice)
      × (result.0 ≡ record inner { active_index = result.0.active_index })
      × (active fl result.0 ≡ (elim choice [ none ↦ active fl inner | some p ↦ some p ]))

  pub place_of_record :
      (ps : List (ProxyInfo F)) (p : ProxyInfo F) → In p ps → (i : ℕ) × (get_elem? ps i ≡ some p)
  place_of_record [] p m = absurd m
  place_of_record (x ∷ ps) p (inl e) = (0, ap some (sym e))
  place_of_record (x ∷ ps) p (inr m) = let (i, e) = place_of_record ps p m in (i + 1, ground arith)

  activate_candidate-Activated :
      (inner : PoolInner F) (choice : Option (ProxyInfo F))
      → IsIndexed inner
      → ((p : ProxyInfo F) → choice ≡ some p → In p inner.proxies)
      → Activated inner choice (activate_candidate fl inner choice)
  unfolding active
  activate_candidate-Activated inner none v from = (refl, refl, refl)
  activate_candidate-Activated inner (some p) v from =
      let (i, e) = place_of_record inner.proxies p (from p refl) in
      rw (index_complete inner i p v e) (refl, refl, e)

  best_avoiding-In :
      (inner : PoolInner F) (min_score : F) (now : ℕ) (avoid : List Text)
      (avoid_exits : List IpAddr) (p : ProxyInfo F)
      → best_avoiding fl inner min_score now avoid avoid_exits ≡ some p
      → In p inner.proxies
  unfolding best_avoiding
  best_avoiding-In inner min_score now avoid avoid_exits p e =
      (select-In _ inner.proxies p (max_by-In (by_effective_score fl now) _ p e)).0

  -- In a pool whose index is right, `activate_best_avoiding` returns what `best_avoiding` chooses and
  -- makes it the active proxy. Nothing of the pool changes besides its active place: not the proxies,
  -- the index, the condemned ids or those that wait for their eviction. Where there is no choice, the
  -- active proxy stays.
  pub activate_best_avoiding-Activated :
      (inner : PoolInner F) (min_score : F) (now : ℕ) (avoid : List Text)
      (avoid_exits : List IpAddr)
      → IsIndexed inner
      → Activated inner
          (best_avoiding fl inner min_score now avoid avoid_exits)
          (activate_best_avoiding fl min_score now avoid avoid_exits inner)
  unfolding activate_best_avoiding best_avoiding
  activate_best_avoiding-Activated inner min_score now avoid avoid_exits v =
      activate_candidate-Activated inner _ v
        (best_avoiding-In inner min_score now avoid avoid_exits)
