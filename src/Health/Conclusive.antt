-- ===== src/Health/Conclusive.antt =====
-- Which of its targets a probe takes its verdict from, in crates/proxy-core/src/health/mod.rs.
use proxy_switcher.Common.{
  ℕ, ◌≡◌, ◌≢◌, ◌⊎◌, inl, inr, refl, ap, true, false, Option, none, some, List, [], ◌∷◌, ◌++◌,
  Bool-cases, take,
}
use proxy_switcher.Common.Text.{Text}
use proxy_switcher.Health.Probe.{
  Meeting, ProbedProxy, ActiveTarget, check_one, is_conclusive, or_unprobed, probe_each,
  probe_against,
}
use proxy_switcher.Pool.Types.{HealthResult, Verdict, working, failed, inconclusive}

module _ (parse_ipv6 : Text → Option ℕ) (show_ipv6 : ℕ → Text) where
  -- No verdict of these targets says anything.
  abbrev pub AllInconclusive : ProbedProxy → (ActiveTarget → Meeting) → List ActiveTarget → Type 0
  AllInconclusive proxy meet [] = Unit {0}
  AllInconclusive proxy meet (t ∷ ts) =
      ((check_one parse_ipv6 show_ipv6 proxy t (meet t)).verdict ≡ inconclusive)
      × AllInconclusive proxy meet ts

  -- The result is that of the first target that says something, or says nothing, as all do.
  abbrev pub FirstConclusive :
      ProbedProxy → (ActiveTarget → Meeting) → List ActiveTarget → HealthResult → Type 0
  FirstConclusive proxy meet ts r =
      ((before : List ActiveTarget) × (t : ActiveTarget) × (after : List ActiveTarget) × (ts
          ≡ before ++ t ∷ after)
        × AllInconclusive proxy meet before
        × (r ≡ check_one parse_ipv6 show_ipv6 proxy t (meet t))
        × (r.verdict ≢ inconclusive))
      ⊎ (AllInconclusive proxy meet ts × (r.verdict ≡ inconclusive))

  conclusive : (v : Verdict) → is_conclusive parse_ipv6 show_ipv6 v ≡ true → v ≢ inconclusive
  conclusive working h e = cc
  conclusive failed h e = cc
  conclusive inconclusive h e = cc

  says_nothing : (v : Verdict) → is_conclusive parse_ipv6 show_ipv6 v ≡ false → v ≡ inconclusive
  says_nothing working h = absurd (cc h)
  says_nothing failed h = absurd (cc h)
  says_nothing inconclusive h = refl

  abbrev SaysNothing : Option HealthResult → Type 0
  SaysNothing none = Unit {0}
  SaysNothing (some r) = r.verdict ≡ inconclusive

  unprobed :
      (id : Text) (o : Option HealthResult)
      → SaysNothing o
      → (or_unprobed parse_ipv6 show_ipv6 id o).verdict ≡ inconclusive
  unprobed id none h = refl
  unprobed id (some r) h = h

  probe_each-FirstConclusive :
      (proxy : ProbedProxy) (meet : ActiveTarget → Meeting) (ts : List ActiveTarget)
      (last : Option HealthResult)
      → SaysNothing last
      → FirstConclusive proxy meet ts (probe_each parse_ipv6 show_ipv6 proxy meet ts last)
  unfolding probe_each
  probe_each-FirstConclusive proxy meet [] last h = inr (tt, unprobed proxy.id last h)
  probe_each-FirstConclusive proxy meet (t ∷ ts) last h =
      let r = check_one parse_ipv6 show_ipv6 proxy t (meet t) in
      elim (Bool-cases (is_conclusive parse_ipv6 show_ipv6 r.verdict)) [
        | inl e ↦ rw (e, probe_each) (inl ([], t, ts, refl, tt, refl, conclusive r.verdict e))
        | inr e ↦
            let none_yet = says_nothing r.verdict e in
            elim (probe_each-FirstConclusive proxy meet ts (some r) none_yet) [
              | inl (before, s, after, split, all, same, says) ↦
                  rw (e, probe_each)
                    (inl (t ∷ before, s, after, ap (◌∷◌ t) split, (none_yet, all), same, says))
              | inr (all, nothing) ↦ rw (e, probe_each) (inr ((none_yet, all), nothing))
            ]
      ]

  -- A proxy is probed against the first targets, as many as it may try: the result is that of the
  -- first of them whose verdict says something, with only targets before it that say nothing; and it
  -- says nothing only if none of them does.
  pub probe_against-FirstConclusive :
      (max_targets_per_proxy : ℕ) (proxy : ProbedProxy) (meet : ActiveTarget → Meeting)
      (targets : List ActiveTarget)
      → FirstConclusive proxy meet
          (take max_targets_per_proxy targets)
          (probe_against parse_ipv6 show_ipv6 max_targets_per_proxy proxy meet targets)
  unfolding probe_against
  probe_against-FirstConclusive max_targets_per_proxy proxy meet targets =
      probe_each-FirstConclusive proxy meet (take max_targets_per_proxy targets) none tt
