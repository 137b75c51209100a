-- ===== src/Health/Enough.antt =====
-- The loops of the readers in crates/proxy-core/src/health/mod.rs end: the fuel they have is enough.
use mathlib.Core.Option
use proxy_switcher.Common.{
  ℕ, zero, suc, ◌+◌, ◌≤◌, ◌<◌, ◌≡◌, inl, inr, refl, ap, Option, none, some, [], ◌∷◌, arith, length,
  ◌∙◌, Bool-cases, ◌==◌,
}
use proxy_switcher.Common.Text.{Text, split_once, strip_prefix}
use proxy_switcher.Health.Reported.{read_headers, header_at, trim_start_text}

abbrev Shrinks : ℕ → Option (Text × Text) → Type 0
Shrinks n none = Unit {0}
Shrinks n (some (front, back)) = length back < n

longer-Shrinks :
    (c n : ℕ) (o : Option (Text × Text))
    → Shrinks n o
    → Shrinks (suc n) (Option.map (λ (p : Text × Text). (c ∷ p.0, p.1)) o)
longer-Shrinks c n none h = tt
longer-Shrinks c n (some (front, back)) h = omega (arith, h)

split_once-Shrinks : (sep : ℕ) (s : Text) → Shrinks (length s) (split_once sep s)
unfolding split_once
split_once-Shrinks sep [] = tt
split_once-Shrinks sep (c ∷ s) = elim (Bool-cases (c == sep)) [
  | inl e ↦ rw e (omega arith)
  | inr e ↦ rw e (longer-Shrinks c (length s) (split_once sep s) (split_once-Shrinks sep s))
]

-- One round more than the length changes nothing, and so no number of rounds does.
read_headers_fuel :
    (fuel : ℕ) (rest : Text)
    → length rest ≤ fuel
    → read_headers (suc fuel) rest ≡ read_headers fuel rest
unfolding read_headers
read_headers_fuel zero [] h = refl
read_headers_fuel zero (c ∷ s) h = absurd (omega (arith, h))
read_headers_fuel (suc fuel) rest h =
    first (λ r k. read_headers_fuel fuel r k) (split_once b'"' rest) (split_once-Shrinks b'"' rest)
  where
    second :
        ((r : Text) → length r ≤ fuel → read_headers (suc fuel) r ≡ read_headers fuel r)
        → (after : Text) (o : Option (Text × Text)) → length after < length rest
        → Shrinks (length after) o
        → (elim o [
          | none ↦ []
          | some (key, rest') ↦
              header_at key (split_once b':' rest') (read_headers (suc fuel) rest')
        ])
          ≡ (elim o [
            | none ↦ []
            | some (key, rest') ↦ header_at key (split_once b':' rest') (read_headers fuel rest')
          ])
    second same after none l k = refl
    second same after (some (key, rest')) l k =
        ap (header_at key (split_once b':' rest')) (same rest' (omega (arith, h, l, k)))

    first :
        ((r : Text) → length r ≤ fuel → read_headers (suc fuel) r ≡ read_headers fuel r)
        → (o : Option (Text × Text)) → Shrinks (length rest) o
        → (elim o [
          | none ↦ []
          | some (front, after) ↦ elim (split_once b'"' after) [
            | none ↦ []
            | some (key, rest') ↦
                header_at key (split_once b':' rest') (read_headers (suc fuel) rest')
          ]
        ])
          ≡ (elim o [
            | none ↦ []
            | some (front, after) ↦ elim (split_once b'"' after) [
              | none ↦ []
              | some (key, rest') ↦ header_at key (split_once b':' rest') (read_headers fuel rest')
            ]
          ])
    first same none k = refl
    first same (some (front, after)) k =
        second same after (split_once b'"' after) k (split_once-Shrinks b'"' after)

-- However much fuel there is beyond the length of the body, the headers are the same.
pub read_headers_enough :
    (more : ℕ) (body : Text)
    → read_headers (more + length body) body ≡ read_headers (length body) body
read_headers_enough zero body = ap (λ n. read_headers n body) none_more
  where
    none_more : zero + length body ≡ length body
    none_more = omega arith
read_headers_enough (suc more) body =
    let one_more : suc more + length body ≡ suc (more + length body) = omega arith in
    ap (λ n. read_headers n body) one_more
    ∙ read_headers_fuel (more + length body) body (omega arith)
    ∙ read_headers_enough more body

abbrev Consumes : ℕ → ℕ → Option Text → Type 0
Consumes k n none = Unit {0}
Consumes k n (some rest) = length rest + k ≤ n

strip_prefix-Consumes : (p s : Text) → Consumes (length p) (length s) (strip_prefix p s)
unfolding strip_prefix
strip_prefix-Consumes [] s = omega arith
strip_prefix-Consumes (p ∷ ps) [] = tt
strip_prefix-Consumes (p ∷ ps) (c ∷ s) = elim (Bool-cases (p == c)) [
  | inl e ↦ rw e (longer (strip_prefix ps s) (strip_prefix-Consumes ps s))
  | inr e ↦ rw e tt
]
  where
    longer :
        (o : Option Text)
        → Consumes (length ps) (length s) o
        → Consumes (suc (length ps)) (suc (length s)) o
    longer none h = tt
    longer (some rest) h = omega (arith, h)

trim_start_text_fuel :
    (fuel c : ℕ) (p s : Text)
    → length s ≤ fuel
    → trim_start_text (suc fuel) (c ∷ p) s ≡ trim_start_text fuel (c ∷ p) s
unfolding trim_start_text strip_prefix
trim_start_text_fuel zero c p [] h = refl
trim_start_text_fuel zero c p (x ∷ s) h = absurd (omega (arith, h))
trim_start_text_fuel (suc fuel) c p s h =
    step (λ r k. trim_start_text_fuel fuel c p r k) (strip_prefix (c ∷ p) s)
      (strip_prefix-Consumes (c ∷ p) s)
  where
    step :
        ((r : Text)
          → length r ≤ fuel
          → trim_start_text (suc fuel) (c ∷ p) r ≡ trim_start_text fuel (c ∷ p) r)
        → (o : Option Text) → Consumes (suc (length p)) (length s) o
        → (elim o [ none ↦ s | some rest ↦ trim_start_text (suc fuel) (c ∷ p) rest ])
          ≡ (elim o [ none ↦ s | some rest ↦ trim_start_text fuel (c ∷ p) rest ])
    step same none k = refl
    step same (some rest) k = same rest (omega (arith, h, k))

-- However much fuel there is beyond the length of a url, the prefix is taken off as often.
pub trim_start_text_enough :
    (more c : ℕ) (p s : Text)
    → trim_start_text (more + length s) (c ∷ p) s ≡ trim_start_text (length s) (c ∷ p) s
trim_start_text_enough zero c p s = ap (λ n. trim_start_text n (c ∷ p) s) none_more
  where
    none_more : zero + length s ≡ length s
    none_more = omega arith
trim_start_text_enough (suc more) c p s =
    let one_more : suc more + length s ≡ suc (more + length s) = omega arith in
    ap (λ n. trim_start_text n (c ∷ p) s) one_more
    ∙ trim_start_text_fuel (more + length s) c p s (omega arith)
    ∙ trim_start_text_enough more c p s
