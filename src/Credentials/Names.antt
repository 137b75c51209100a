-- ===== src/Credentials/Names.antt =====
-- What a client says of itself in its name: crates/proxy-core/src/credentials.rs. A length in bytes
-- is compared only between prefixes of one name, where lengths in code points order them alike.
pub mod Written
pub mod Longest
use Prim.Native.Nat.{compare}
use proxy_switcher.Common.{
  ℕ, Bool, true, false, not, ◌&&◌, ◌||◌, Option, none, some, List, [], ◌∷◌, ◌++◌, if◌then◌else◌,
  any, select, ltb, ◌==◌, get_elem?, length, is_empty,
}
use proxy_switcher.Common.Text.{Text, codes, equal, trim, trim_start_by, strip_prefix, split}
use proxy_switcher.Credentials.Policy.{eq_ignore_case, or_empty}
use proxy_switcher.Pool.Select.{max_by}
use proxy_switcher.Pool.Types.{is_some}

pub record ClientName : Type 0 where
  pub credential : Text
  pub parameters : List (Text × Text)

-- `ClientName::parameter`
unfoldable pub value_of : Text → List (Text × Text) → Option Text
unfolding eq_ignore_case
value_of key [] = none
value_of key ((name, value) ∷ ps) =
    let rest = value_of key ps in if eq_ignore_case name key then some value else rest

unfoldable pub parameter : ClientName → Text → Option Text
unfolding value_of
parameter c key = value_of key c.parameters

abbrev pub or_default : Option Text → Text
or_default none = codes "default"
or_default (some t) = t

-- `ClientName::session`, `ClientName::session_key`
unfoldable pub session : ClientName → Text
unfolding parameter
session c = or_default (parameter c (codes "session"))

unfoldable pub session_key : ClientName → Text
unfolding session
session_key c = c.credential ++ b':' ∷ session c

abbrev pub parameter_keys : List Text
parameter_keys = codes "session" ∷ codes "country" ∷ codes "protocol" ∷ codes "sticky" ∷ []

unfoldable pub is_key : Text → Bool
unfolding eq_ignore_case
is_key part = any (λ key. eq_ignore_case key part) parameter_keys

-- `if let Some(key) = current.take()`: the parameter that is still open is closed without a value.
abbrev pub close : List (Text × Text) → Option Text → List (Text × Text)
close ps none = ps
close ps (some key) = ps ++ (key, []) ∷ []

abbrev pub valued : Option Text → Text → Text × Text
valued (some key) part = (key, part)
valued none part = (codes "session", part)

-- One part of the loop of `parse_parameters`: the parameters so far and the key whose value is
-- still to come.
unfoldable pub read_part :
    List (Text × Text) × Option Text → Text → List (Text × Text) × Option Text
unfolding is_key
read_part (ps, current) part =
    if is_key part then (close ps current, some part) else (ps ++ valued current part ∷ [], none)

unfoldable pub read_parts : List Text → List (Text × Text) × Option Text → List (Text × Text)
unfolding read_part
read_parts [] (ps, current) = close ps current
read_parts (part ∷ parts) state = read_parts parts (read_part state part)

-- `parse_parameters`
unfoldable pub parse_parameters : Text → List (Text × Text)
unfolding read_parts split
parse_parameters rest = read_parts (select (λ p. not (is_empty p)) (split b'-' rest)) ([], none)

abbrev pub is_at : Option ℕ → ℕ → Bool
is_at none c = false
is_at (some d) c = d == c

-- Whether a known name is the name, or what stands in front of one of its dashes.
unfoldable pub is_credential_of : Text → Text → Bool
unfolding equal strip_prefix
is_credential_of name candidate =
    equal name candidate
    || ltb (length candidate) (length name)
      && is_some (strip_prefix candidate name)
      && is_at (get_elem? name (length candidate)) b'-'

-- `parse_client_name` behind `trim`
unfoldable pub credential_of : Text → List Text → Text
unfolding is_credential_of max_by
credential_of name known =
    elim (max_by (λ c d. compare (length c) (length d)) (select (is_credential_of name) known)) [
      | none ↦ name
      | some c ↦ c
    ]

unfoldable pub parse_client_name : Text → List Text → ClientName
unfolding credential_of strip_prefix trim_start_by parse_parameters trim
parse_client_name username known =
    let name = trim username in
    let credential = credential_of name known in
    let rest = trim_start_by (λ c. c == b'-') (or_empty (strip_prefix credential name)) in
    record { credential = credential; parameters = parse_parameters rest }
