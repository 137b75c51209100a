-- ===== src/Router/Routes.antt =====
-- Which routes the task of a handshake tries.
use proxy_switcher.Common.{
  ℕ, zero, suc, ◌≤◌, ◌≡◌, inl, inr, Bool, false, Option, none, some, List, [], ◌∷◌, arith, length,
  Bool-cases, Option-cases,
}
use proxy_switcher.Common.Member.{select-In}
use proxy_switcher.Common.Text.{Text, contains}
use proxy_switcher.Pool.Health.{report_failure}
use proxy_switcher.Pool.Maximum.{max_by-In}
use proxy_switcher.Pool.Select.{
  activate_best_avoiding, best_avoiding, activate_candidate, by_effective_score,
}
use proxy_switcher.Pool.State.{PoolInner, insert_key}
use proxy_switcher.Pool.Types.{Floats, ProxyInfo}
use proxy_switcher.Router.Outgoing.{Setting, attempts}

module _ {F : Type 0} where
  -- Every route goes through a proxy that is not among the avoided ones, and no proxy is tried
  -- twice.
  abbrev pub AllProxied : List Text → List (Option (ProxyInfo F)) → Type 0
  AllProxied avoided [] = Unit {0}
  AllProxied avoided (none ∷ routes) = ⊥
  AllProxied avoided (some p ∷ routes) =
      (contains avoided p.id ≡ false) × AllProxied (insert_key p.id avoided) routes

module _ (fl : Floats) where
  open fl use {F}

  candidate_is_choice :
      (inner : PoolInner F) (o : Option (ProxyInfo F)) (p : ProxyInfo F)
      → (activate_candidate fl inner o).1 ≡ some p
      → o ≡ some p
  candidate_is_choice inner none p e = cc
  candidate_is_choice inner (some q) p e = elim (Option-cases (inner.index q.id)) [
    | inl f ↦ absurd (cc (rw f at e))
    | inr (i, f) ↦ rw f at e
  ]

  replacement_is_new :
      (inner : PoolInner F) (min_score : F) (now : ℕ) (avoided : List Text) (p : ProxyInfo F)
      → (activate_best_avoiding fl min_score now avoided [] inner).1 ≡ some p
      → contains avoided p.id ≡ false
  unfolding activate_best_avoiding best_avoiding
  replacement_is_new inner min_score now avoided p e =
      let chosen =
        candidate_is_choice inner (best_avoiding fl inner min_score now avoided []) p e in
      let (_, t) = select-In _ inner.proxies p (max_by-In (by_effective_score fl now) _ p chosen) in
      ground (arith, t)

  -- A task whose policy decision was a proxy tries proxies only, never a direct connection; it
  -- tries no proxy twice, and at most one more than the further attempts that it is allowed. This
  -- holds whatever the network answers and whatever other tasks do to the pool in between.
  pub attempts-AllProxied :
      (s : Setting fl) (connects : ℕ → Option (ProxyInfo F) → Bool)
      (others : ℕ → PoolInner F → PoolInner F) (left : ℕ) (p : ProxyInfo F) (avoided : List Text)
      (pool : PoolInner F)
      → contains avoided p.id ≡ false
      → AllProxied avoided (attempts fl s connects others left (some p) avoided pool).tried
        × (length (attempts fl s connects others left (some p) avoided pool).tried ≤ suc left)
  unfolding attempts
  attempts-AllProxied s connects others zero p avoided pool new = ((new, tt), omega arith)
  attempts-AllProxied s connects others (suc left) p avoided pool new =
      let after = report_failure fl s.schedule s.now (others (suc left) pool) p.id in
      let avoid = insert_key p.id avoided in
      elim (Bool-cases (connects (suc left) (some p))) [
        | inl e ↦ rw (e, attempts) ((new, tt), omega arith)
        | inr e ↦
            rw (e, attempts)
              (elim (Option-cases (activate_best_avoiding fl s.min_score s.now avoid [] after).1) [
                | inl f ↦ rw (f, attempts) ((new, tt), omega arith)
                | inr (q, f) ↦
                    let fresh = replacement_is_new after s.min_score s.now avoid q f in
                    let (all, few) =
                      attempts-AllProxied s connects others left q avoid
                        (activate_best_avoiding fl s.min_score s.now avoid [] after).0 fresh in
                    rw (f, attempts) ((new, all), omega (arith, few))
              ])
      ]
