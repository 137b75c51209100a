-- ===== src/Routing/Subdomain.antt =====
-- Which host names a domain rule covers.
use proxy_switcher.Common.{
  ℕ, ◌≡◌, ◌≢◌, ◌↔◌, ◌⊎◌, inl, inr, refl, sym, ap, ◌∙◌, Bool, true, false, ◌||◌, [], ◌∷◌, ◌++◌,
  arith, ◌==◌, if◌then◌else◌, is_empty, Bool-cases, Option-cases,
}
use proxy_switcher.Common.Text.{
  Text, equal, equal_iff, trim, lowercase, strip_prefix, strip_suffix, strip_suffix_sound,
  strip_suffix-append, ends_with_iff,
}
use mathlib.Core.List.{append_assoc}
use proxy_switcher.Routing.Domain.{ends_in_dot, normal_host, rule_covers, matches_domain}

-- The host is a label or more, a dot, and the name.
abbrev pub IsSubdomain : Text → Text → Type 0
IsSubdomain host name = (labels : Text) × (host ≡ labels ++ b'.' ∷ name)

-- A rule that begins with a dot covers the subdomains of what follows it; any other covers the
-- name itself and its subdomains. Nothing covers an empty host, and an empty rule covers nothing.
abbrev pub CoversHost : Text → Text → Type 0
CoversHost [] host = ⊥
CoversHost (c ∷ name) host =
    (host ≢ [])
    × (if b'.' == c
        then IsSubdomain host (lowercase name)
        else ((host ≡ lowercase (c ∷ name)) ⊎ IsSubdomain host (lowercase (c ∷ name))))

cons-ne-nil : {c : ℕ} {s : Text} → ◌≢◌ {A = Text} (c ∷ s) []
cons-ne-nil e = cc

false-ne-true : ◌≡◌ {A = Bool} false true → ⊥
false-ne-true e = cc

dotted_sound :
    (name host : Text) → ends_in_dot (strip_suffix name host) ≡ true → IsSubdomain host name
dotted_sound name host h = elim (Option-cases (strip_suffix name host)) [
  | inl e ↦ ground arith
  | inr (p, e) ↦
      let (q, f) = (ends_with_iff b'.' p).0 (rw e at h) in
      (
        q,
        strip_suffix_sound name host p e ∙ ap (λ x. x ++ name) f ∙ append_assoc q (b'.' ∷ []) name,
      )
]

dotted_complete :
    (name host : Text) → IsSubdomain host name → ends_in_dot (strip_suffix name host) ≡ true
dotted_complete name host (q, e) =
    let split : host ≡ (q ++ b'.' ∷ []) ++ name = e ∙ sym (append_assoc q (b'.' ∷ []) name) in
    rw (split, strip_suffix-append name (q ++ b'.' ∷ [])) ((ends_with_iff b'.' _).1 (q, refl))

named_iff :
    (name host : Text)
    → ((if equal host name then true else ends_in_dot (strip_suffix name host)) ≡ true)
      ↔ ((host ≡ name) ⊎ IsSubdomain host name)
named_iff name host = elim (Bool-cases (equal host name)) [
  | inl h ↦ rw h (λ _. inl ((equal_iff host name).0 h), λ _. refl)
  | inr h ↦ rw h (
    λ e. inr (dotted_sound name host e),
    elim [
      | inl e ↦ absurd (false-ne-true (sym h ∙ (equal_iff host name).1 e))
      | inr e ↦ dotted_complete name host e
    ],
  )
]

covers_iff :
    (raw host : Text)
    → ((if is_empty raw || is_empty host
          then false
          else rule_covers (strip_prefix (b'.' ∷ []) raw) raw host)
        ≡ true)
      ↔ CoversHost raw host
unfolding rule_covers strip_prefix
covers_iff [] host = (λ h. cc, λ h. absurd h)
covers_iff (c ∷ name) [] = (λ h. cc, λ h. absurd (h.0 refl))
covers_iff (c ∷ name) (d ∷ host) = elim (Bool-cases (b'.' == c)) [
  | inl dot ↦ rw dot (
    λ h. (cons-ne-nil, dotted_sound (lowercase name) (d ∷ host) h),
    λ h. dotted_complete (lowercase name) (d ∷ host) h.1,
  )
  | inr plain ↦
      let named = named_iff (lowercase (c ∷ name)) (d ∷ host) in
      rw plain (λ h. (cons-ne-nil, named.0 h), λ h. named.1 h.1)
]

-- A rule matches a host name exactly if the trimmed rule covers the host name, trimmed, with no
-- dots at its end and in lower case: the name itself or a subdomain of it, or only a subdomain
-- where the rule begins with a dot.
pub matches_domain_iff :
    (rule hostname : Text)
    → (matches_domain rule hostname ≡ true) ↔ CoversHost (trim rule) (normal_host hostname)
unfolding matches_domain
matches_domain_iff rule hostname = covers_iff (trim rule) (normal_host hostname)
