-- ===== src/Pool/Due.antt =====
-- `next_due_at` of crates/proxy-core/src/pool/mod.rs, and what it says of the proxies that are due.
use proxy_switcher.Common.{
  ℕ, ◌≡◌, inl, inr, refl, Bool, true, false, Option, none, some, List, [], ◌∷◌, arith, leb, ltb,
  length, select, min, Bool-cases, ◌∙◌, sym,
}
use proxy_switcher.Pool.Select.{due_count}
use proxy_switcher.Pool.State.{PoolInner}
use proxy_switcher.Pool.Types.{Floats, ProxyInfo}

-- `min()`, of the first and of what the rest has.
abbrev sooner : ℕ → Option ℕ → ℕ
sooner t none = t
sooner t (some u) = min t u

-- Whether a time is there and has come.
abbrev pub has_come : ℕ → Option ℕ → Bool
has_come now none = false
has_come now (some t) = leb t now

come_sooner :
    (now t n : ℕ) (o : Option ℕ)
    → ltb 0 n ≡ has_come now o
    → leb t now ≡ false
    → ltb 0 n ≡ leb (sooner t o) now
come_sooner now t n none e late = e ∙ sym late
come_sooner now t n (some u) e late = ground (arith, e, late)

come_now : (now t : ℕ) (o : Option ℕ) → leb t now ≡ true → leb (sooner t o) now ≡ true
come_now now t none h = h
come_now now t (some u) h = ground (arith, h)

module _ (fl : Floats) where
  open fl use {F}

  unfoldable earliest : List (ProxyInfo F) → Option ℕ
  earliest [] = none
  earliest (p ∷ ps) = some (sooner p.next_probe_at (earliest ps))

  -- `next_due_at`
  unfoldable pub next_due_at : PoolInner F → Option ℕ
  unfolding earliest
  next_due_at inner = earliest inner.proxies

  some_due :
      (now : ℕ) (ps : List (ProxyInfo F))
      → ltb 0 (length (select (λ p. leb p.next_probe_at now) ps)) ≡ has_come now (earliest ps)
  unfolding earliest
  some_due now [] = refl
  some_due now (p ∷ ps) = elim (Bool-cases (leb p.next_probe_at now)) [
    | inl e ↦ rw (e, come_now now p.next_probe_at (earliest ps) e, earliest) (ground arith)
    | inr e ↦
        rw (e, earliest)
          (come_sooner now p.next_probe_at (length (select (λ p. leb p.next_probe_at now) ps))
            (earliest ps) (some_due now ps) e)
  ]

  -- Some proxy is due for a probe exactly when the time of `next_due_at` has come.
  pub due_count-next_due_at :
      (inner : PoolInner F) (now : ℕ)
      → ltb 0 (due_count fl inner now) ≡ has_come now (next_due_at inner)
  unfolding due_count next_due_at
  due_count-next_due_at inner now = some_due now inner.proxies
