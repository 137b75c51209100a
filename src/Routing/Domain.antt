-- ===== src/Routing/Domain.antt =====
-- `matches_domain` of crates/proxy-core/src/routing.rs.
use proxy_switcher.Common.{
  Bool, true, false, ◌||◌, Option, none, some, ◌==◌, if◌then◌else◌, is_empty, [], ◌∷◌,
}
use proxy_switcher.Common.Text.{
  Text, equal, trim, trim_end_by, lowercase, strip_prefix, strip_suffix, ends_with,
}

-- `.is_some_and(|prefix| prefix.ends_with('.'))`
abbrev pub ends_in_dot : Option Text → Bool
ends_in_dot none = false
ends_in_dot (some s) = ends_with b'.' s

-- The host name as it is compared: trimmed, with no dots at its end, in lower case.
unfoldable pub normal_host : Text → Text
unfolding trim trim_end_by lowercase
normal_host hostname = lowercase (trim_end_by (λ c. c == b'.') (trim hostname))

-- The two kinds of rule, on names that are ready to compare.
unfoldable pub rule_covers : Option Text → Text → Text → Bool
unfolding equal strip_suffix lowercase ends_with
rule_covers (some suffix) raw host = ends_in_dot (strip_suffix (lowercase suffix) host)
rule_covers none raw host =
    if equal host (lowercase raw) then true else ends_in_dot (strip_suffix (lowercase raw) host)

unfoldable pub matches_domain : Text → Text → Bool
unfolding trim normal_host rule_covers strip_prefix
matches_domain rule hostname =
    let raw = trim rule in
    let host = normal_host hostname in
    if is_empty raw || is_empty host
    then false
    else rule_covers (strip_prefix (b'.' ∷ []) raw) raw host
