-- ===== src/Dns/Total.antt =====
-- The bounds checks of the reader of DNS responses, and the loops that end.
use proxy_switcher.Address.{Ipv4Addr}
use proxy_switcher.Common.{
  ℕ, zero, suc, ◌+◌, ◌-◌, ◌/◌, ◌%◌, ◌^◌, ◌≤◌, ◌<◌, ◌≡◌, ◌≢◌, refl, arith, ltb, leb, ◌==◌, ◌&&◌,
  length, drop, take, Option, none, some, List, [], ◌∷◌, ◌++◌, if◌then◌else◌, get_elem?-lt,
  Bool-cases, Option-cases, inl, inr,
}
use Prim.Native.Nat.{bit_and}
use proxy_switcher.Common.Outcome.{
  ok, Bytes, Safe, returns, fails, Any, Safe-bind, Safe-if, Safe-map, byte_at-Safe, be16_at-Safe,
  byte_at,
}
use proxy_switcher.Common.Text.{Text}
use proxy_switcher.Dns.Names.{OutOfFuel, from_utf8, name_loop, decode_name, skip_loop, skip_name}
use proxy_switcher.Dns.Response.{
  first_question, skip_questions, read_answers, read_sections, parse_dns_response, name_or_none,
  named,
}
use proxy_switcher.Packet.Total.{ipv4_at-Safe}

name_loop-Safe :
    (d : Bytes) (fuel : ℕ) (labels : List Text) (offset : ℕ) (behind : Option ℕ)
    → Safe Any (name_loop d fuel labels offset behind)
unfolding name_loop
name_loop-Safe d zero labels offset behind = fails
name_loop-Safe d (suc fuel) labels offset behind =
    Safe-if (leb (length d) offset) _ _ (λ _. returns tt)
      λ inside. Safe-bind _ _ (byte_at-Safe d offset (ground arith)) λ b _.
        Safe-if (b == 0) _ _ (λ _. returns tt)
          λ _.
            Safe-if (bit_and b 0xc0 == 0xc0) _ _
              (λ _.
                Safe-if (leb (length d) (offset + 1)) _ _ (λ _. returns tt)
                  λ more.
                    Safe-bind _ _ (byte_at-Safe d (offset + 1) (ground arith))
                      λ low _. name_loop-Safe d fuel labels _ _)
              λ _.
                Safe-if (ltb (length d) (offset + 1 + b)) _ _ (λ _. returns tt)
                  λ _. elim (Option-cases (from_utf8 (take b (drop (offset + 1) d)))) [
                    | inl e ↦ rw e (returns tt)
                    | inr (label, e) ↦
                        rw e (name_loop-Safe d fuel (labels ++ label ∷ []) (offset + 1 + b) behind)
                  ]

decode_name-Safe : (fuel : ℕ) (d : Bytes) (start : ℕ) → Safe Any (decode_name fuel d start)
unfolding decode_name
decode_name-Safe fuel d start =
    Safe-bind _ _ (name_loop-Safe d fuel [] start none) λ found _. returns tt

-- The offset that is found, if any, is behind the start.
abbrev pub Forward : ℕ → Option ℕ → Type 0
Forward start none = Unit {0}
Forward start (some e) = start < e

Forward-from : (a b : ℕ) (o : Option ℕ) → a ≤ b → Forward b o → Forward a o
Forward-from a b none h f = tt
Forward-from a b (some e) h f = omega arith

skip_round :
    (d : Bytes) (fuel offset len bits : ℕ)
    → (length d < fuel + (offset + 1 + len)
        → 0 < fuel
        → (o : Option ℕ) × (skip_loop d fuel (offset + 1 + len) ≡ ok o)
          × Forward (offset + 1 + len) o)
    → length d < suc fuel + offset
    → offset < length d
    → (o : Option ℕ) × ((if len == 0
          then ok (some (offset + 1))
          else if bits == 0xc0
          then ok (some (offset + 2))
          else if ltb (length d) (offset + 1 + len)
          then ok none
          else skip_loop d fuel (offset + 1 + len))
        ≡ ok o)
      × Forward offset o
skip_round d fuel offset len bits rest h k = elim (Bool-cases (len == 0)) [
  | inl e ↦ rw e (some (offset + 1), refl, omega arith)
  | inr e ↦ rw e (elim (Bool-cases (bits == 0xc0)) [
    | inl f ↦ rw f (some (offset + 2), refl, omega arith)
    | inr f ↦ rw f (elim (Bool-cases (ltb (length d) (offset + 1 + len))) [
      | inl g ↦ rw g (none, refl, tt)
      | inr g ↦
          let (o, r, a) = rest (omega arith) (ground arith) in
          rw g (o, r, Forward-from offset (offset + 1 + len) o (omega arith) a)
    ])
  ])
]

-- Each round but the last goes forward, so a fuel of one more than what is left is enough.
skip_loop-ends :
    (d : Bytes) (fuel offset : ℕ)
    → length d < fuel + offset
    → 0 < fuel
    → (o : Option ℕ) × (skip_loop d fuel offset ≡ ok o) × Forward offset o
unfolding skip_loop
skip_loop-ends d zero offset h k = absurd (omega arith)
skip_loop-ends d (suc fuel) offset h k = elim (Bool-cases (leb (length d) offset)) [
  | inl e ↦ rw e (none, refl, tt)
  | inr e ↦
      let (len, f) = get_elem?-lt d offset (ground arith) in
      rw (e, byte_at, f)
        (skip_round d fuel offset len (bit_and len 0xc0) (skip_loop-ends d fuel (offset + 1 + len))
          h (ground arith))
]

-- `skip_name` ends on all data, and the offset that it returns is behind its start.
pub skip_name-ends :
    (d : Bytes) (start : ℕ) → (o : Option ℕ) × (skip_name d start ≡ ok o) × Forward start o
unfolding skip_name
skip_name-ends d start = skip_loop-ends d (suc (length d)) start (omega arith) (omega arith)

first_question-Safe : (fuel : ℕ) (d : Bytes) (n : ℕ) → Safe Any (first_question fuel d n)
unfolding first_question
first_question-Safe fuel d zero = returns tt
first_question-Safe fuel d (suc n) = Safe-bind _ _ (decode_name-Safe fuel d 12) λ found _.
    Safe-if (ltb (length d) ((name_or_none found).1 + 4)) _ _ (λ _. returns tt) λ _. returns tt

skip_questions-Safe : (d : Bytes) (n offset : ℕ) → Safe Any (skip_questions d n offset)
unfolding skip_questions
skip_questions-Safe d zero offset = returns tt
skip_questions-Safe d (suc n) offset =
    let (found, e, _) = skip_name-ends d offset in
    rw e (elim (Option-cases found) [
      | inl f ↦ rw f (returns tt)
      | inr (new, f) ↦ rw f (
          Safe-if (ltb (length d) (new + 4)) _ _ (λ _. returns tt)
            λ _. skip_questions-Safe d n (new + 4))
    ])

-- Every pair is under the name that is asked for, which is not empty.
abbrev pub AllUnder : Text → List (Text × Ipv4Addr) → Type 0
AllUnder name [] = Unit {0}
AllUnder name ((host, ip) ∷ rest) = (host ≡ name) × (host ≢ []) × AllUnder name rest

named-AllUnder :
    (name : Text) (ip : Ipv4Addr) (rest : List (Text × Ipv4Addr))
    → AllUnder name rest
    → AllUnder name (named name ip rest)
named-AllUnder [] ip rest a = a
named-AllUnder (c ∷ name) ip rest a = (refl, λ e. cc, a)

read_answers-Safe :
    (fuel : ℕ) (d : Bytes) (name : Text) (n offset : ℕ)
    → Safe (AllUnder name) (read_answers fuel d name n offset)
unfolding read_answers
read_answers-Safe fuel d name zero offset = returns tt
read_answers-Safe fuel d name (suc n) offset =
    Safe-bind _ _ (decode_name-Safe fuel d offset) λ found _. (elim (Option-cases found) [
      | inl f ↦ rw f (returns tt)
      | inr ((_, new), f) ↦ rw f (
          Safe-if (ltb (length d) (new + 10)) _ _ (λ _. returns tt)
            λ fits. Safe-bind _ _ (be16_at-Safe d new (ground arith)) λ atype _.
              Safe-bind _ _ (be16_at-Safe d (new + 2) (ground arith)) λ class _.
                Safe-bind _ _ (be16_at-Safe d (new + 8) (ground arith)) λ rdlength _.
                  Safe-if (atype == 1 && rdlength == 4 && leb (new + 10 + 4) (length d)) _ _
                    (λ t. Safe-bind _ _ (ipv4_at-Safe d (new + 10) (ground arith)) λ ip _.
                      Safe-bind _ _ (read_answers-Safe fuel d name n (new + 10 + rdlength))
                        λ rest a. returns (named-AllUnder name ip rest a))
                    λ _. read_answers-Safe fuel d name n (new + 10 + rdlength))
    ])

-- The pairs are all under one name.
abbrev pub UnderOneName : List (Text × Ipv4Addr) → Type 0
UnderOneName pairs = (name : Text) × AllUnder name pairs

none_read : Safe {E = OutOfFuel} UnderOneName (ok [])
none_read = returns ([], tt)

read_sections-Safe :
    (fuel : ℕ) (d : Bytes) (questions answers : ℕ)
    → Safe UnderOneName (read_sections fuel d questions answers)
unfolding read_sections
read_sections-Safe fuel d questions answers =
    Safe-bind _ _ (first_question-Safe fuel d questions) λ first _. (elim (Option-cases first) [
      | inl f ↦ rw f none_read
      | inr ((name, offset), f) ↦ rw f (
          Safe-bind _ _ (skip_questions-Safe d (questions - 1) offset) λ others _.
            (elim (Option-cases others) [
              | inl g ↦ rw g none_read
              | inr (start, g) ↦
                  rw g
                    (Safe-map (λ pairs a. (name, a)) (read_answers-Safe fuel d name answers start))
            ]))
    ])

-- No data makes `parse_dns_response` read out of bounds, and the pairs that it returns are all
-- under one and the same name, which is not empty.
pub parse_dns_response-Safe : (fuel : ℕ) (d : Bytes) → Safe UnderOneName (parse_dns_response fuel d)
unfolding parse_dns_response
parse_dns_response-Safe fuel d =
    Safe-if (ltb (length d) 12) _ _ (λ _. none_read)
      λ long. Safe-bind _ _ (be16_at-Safe d 2 (ground arith)) λ flags _.
        Safe-if ((flags / 2 ^ 15) % 2 == 1) _ _
          (λ _. Safe-bind _ _ (be16_at-Safe d 4 (ground arith)) λ questions _.
            Safe-bind _ _ (be16_at-Safe d 6 (ground arith)) λ answers _.
              Safe-if (answers == 0) _ _ (λ _. none_read)
                λ _. read_sections-Safe fuel d questions answers)
          λ _. none_read
