-- ===== src/Credentials/Names/Longest.antt =====
-- The credential of a name is the longest known name that fits it.
use Prim.Native.Nat.{Ordering, compare}
use proxy_switcher.Common.{
  ◌≤◌, ◌⊎◌, Bool-cases, ◌≡◌, refl, true, false, List, [], arith, select, length, Option-cases, inl,
  inr, subst,
}
use proxy_switcher.Common.Member.{In, In-select, select-In}
use proxy_switcher.Common.Text.{Text, trim}
use proxy_switcher.Credentials.Names.{is_credential_of, credential_of, parse_client_name}
use proxy_switcher.Pool.Maximum.{max_by-In, max_by-none, max_by-AllAtMost}
use proxy_switcher.Pool.Select.{max_by}

-- A known name that fits and is the longest, or the name itself where none fits.
abbrev pub IsLongest : Text → List Text → Text → Type 0
IsLongest name known c =
    (In c known
      × (is_credential_of name c ≡ true)
      × ((d : Text) → In d known → is_credential_of name d ≡ true → length d ≤ length c))
    ⊎ ((c ≡ name) × ((d : Text) → In d known → is_credential_of name d ≡ false))

abbrev by_length : Text → Text → Ordering
by_length c d = compare (length c) (length d)

fits_none :
    (name : Text) (known : List Text) (d : Text)
    → select (is_credential_of name) known ≡ []
    → In d known
    → is_credential_of name d ≡ false
fits_none name known d e m = elim (Bool-cases (is_credential_of name d)) [
  | inl t ↦ absurd (subst (In d) e (In-select (is_credential_of name) known d m t))
  | inr f ↦ f
]

credential_of-IsLongest :
    (name : Text) (known : List Text) → IsLongest name known (credential_of name known)
unfolding credential_of
credential_of-IsLongest name known =
    let fitting = select (is_credential_of name) known in
    elim (Option-cases (max_by by_length fitting)) [
      | inl e ↦
          rw (e, credential_of)
            (inr (refl, λ d m. fits_none name known d (max_by-none by_length fitting e) m))
      | inr (c, e) ↦
          let (m, fits) =
            select-In (is_credential_of name) known c (max_by-In by_length fitting c e) in
          let longest =
            max_by-AllAtMost by_length (λ a b h. ground arith) (λ a b d h k. ground arith) fitting c
              e in
          rw (e, credential_of)
            (inl (
              m,
              fits,
              λ d k t. ground (arith, longest d (In-select (is_credential_of name) known d k t)),
            ))
    ]

-- The credential that `parse_client_name` finds is the longest of the known names that fit the
-- trimmed name: no known name that fits is longer. A name that no known name fits is its own
-- credential.
pub parse_client_name-IsLongest :
    (username : Text) (known : List Text)
    → IsLongest (trim username) known (parse_client_name username known).credential
unfolding parse_client_name
parse_client_name-IsLongest username known = credential_of-IsLongest (trim username) known
