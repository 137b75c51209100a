-- ===== src/Pool/Kept.antt =====
-- What `retain` leaves, and sets of ids.
use proxy_switcher.Common.{
  ℕ, zero, suc, ◌+◌, ◌-◌, ◌≡◌, inl, inr, refl, sym, ap, ◌∙◌, Bool, true, false, not, List, [], ◌∷◌,
  ◌||◌, map, arith, length, take, select,
}
use proxy_switcher.Common.Member.{In, contains-In, select-ext, select-all}
use proxy_switcher.Common.Text.{Text, equal, equal_iff, equal_refl, contains}
use proxy_switcher.Pool.Index.{Distinct, retain_from-kept, empty_index}
use proxy_switcher.Pool.State.{PoolInner, insert_key, insert_keys, id_of, retain}
use proxy_switcher.Pool.Types.{ProxyInfo}

pub insert_keys-contains :
    (ks keys : List Text) (k : Text)
    → contains (insert_keys ks keys) k ≡ (contains ks k || contains keys k)
insert_keys-contains [] keys k = refl
insert_keys-contains (x ∷ ks) keys k =
    ground (arith, insert_keys-contains ks (insert_key x keys) k, equal_iff k x)

-- Keys that are new are all counted.
pub length-insert_keys :
    (ks keys : List Text)
    → Distinct ks
    → ((k : Text) → contains ks k ≡ true → contains keys k ≡ false)
    → length (insert_keys ks keys) ≡ length ks + length keys
length-insert_keys [] keys d new = omega arith
length-insert_keys (x ∷ ks) keys d new =
    let fresh : contains keys x ≡ false = new x (ground (arith, equal_refl x)) in
    let rest =
      length-insert_keys ks (x ∷ keys) d.1 (λ k h. ground (arith, new k, h, equal_iff k x, d.0)) in
    rw fresh (omega (arith, rest))

pub retain-proxies :
    {F : Type 0} (keep : ProxyInfo F → Bool) (inner : PoolInner F)
    → (retain keep inner).proxies ≡ select keep inner.proxies
unfolding retain
retain-proxies keep inner = retain_from-kept id_of keep 0 empty_index inner.proxies

module _ {F : Type 0} where
  -- Two records with one id are one, where no id stands twice.
  pub Distinct-In :
      (ps : List (ProxyInfo F)) (p q : ProxyInfo F)
      → Distinct (map id_of ps)
      → In p ps
      → In q ps
      → p.id ≡ q.id
      → p ≡ q
  Distinct-In [] p q d m k e = absurd m
  Distinct-In (x ∷ ps) p q d (inl f) (inl g) e = f ∙ sym g
  Distinct-In (x ∷ ps) p q d (inl f) (inr k) e =
      cc (sym d.0 ∙ ap (contains (map id_of ps)) (sym (ap id_of f) ∙ e) ∙ contains-In id_of ps q k)
  Distinct-In (x ∷ ps) p q d (inr m) (inl g) e =
      cc (
        sym d.0
        ∙ ap (contains (map id_of ps)) (sym (ap id_of g) ∙ sym e)
        ∙ contains-In id_of ps p m)
  Distinct-In (x ∷ ps) p q d (inr m) (inr k) e = Distinct-In ps p q d.1 m k e

  -- Without the first `n`, as many are left as there were behind them.
  pub length-without :
      (n : ℕ) (ps : List (ProxyInfo F))
      → Distinct (map id_of ps)
      → length (select (λ p. not (contains (map id_of (take n ps)) p.id)) ps) ≡ length ps - n
  length-without zero ps d = rw (select-all (λ p. true) ps (λ _. refl)) (omega arith)
  length-without (suc n) [] d = omega arith
  length-without (suc n) (x ∷ ps) d =
      let others =
        select-ext (λ p. not (equal p.id x.id || contains (map id_of (take n ps)) p.id))
          (λ p. not (contains (map id_of (take n ps)) p.id)) ps
          (λ a m. ground (arith, contains-In id_of ps a m, d.0, equal_iff a.id x.id)) in
      rw (equal_refl x.id) (omega (arith, ap length others, length-without n ps d.1))

pub length-map_ids : {F : Type 0} (ps : List (ProxyInfo F)) → length (map id_of ps) ≡ length ps
length-map_ids [] = refl
length-map_ids (x ∷ ps) = ap suc (length-map_ids ps)

pub contains-take :
    {F : Type 0} (n : ℕ) (ps : List (ProxyInfo F)) (k : Text)
    → contains (map id_of ps) k ≡ false
    → contains (map id_of (take n ps)) k ≡ false
contains-take zero ps k h = refl
contains-take (suc n) [] k h = refl
contains-take (suc n) (x ∷ ps) k h = ground (arith, contains-take n ps k)

pub take-Distinct :
    {F : Type 0} (n : ℕ) (ps : List (ProxyInfo F))
    → Distinct (map id_of ps)
    → Distinct (map id_of (take n ps))
take-Distinct zero ps d = tt
take-Distinct (suc n) [] d = tt
take-Distinct (suc n) (x ∷ ps) d = (contains-take n ps x.id d.0, take-Distinct n ps d.1)
