-- ===== src/Dns/Response.antt =====
-- `parse_dns_response` of crates/proxy-core/src/dns/mod.rs.
use proxy_switcher.Address.{Ipv4Addr}
use proxy_switcher.Common.{
  ℕ, zero, suc, ◌+◌, ◌-◌, ◌/◌, ◌%◌, ◌^◌, ◌&&◌, Option, none, some, List, [], ◌∷◌, if◌then◌else◌,
  leb, ltb, ◌==◌, length,
}
use proxy_switcher.Common.Outcome.{Outcome, ok, ◌>>=◌, Bytes, be16_at}
use proxy_switcher.Common.Text.{Text}
use proxy_switcher.Packet.Ip.{ipv4_at}
use proxy_switcher.Dns.Names.{OutOfFuel, decode_name, skip_name}

-- Without a name, the first question is taken to be empty.
abbrev pub name_or_none : Option (Text × ℕ) → Text × ℕ
name_or_none none = ([], 12)
name_or_none (some found) = found

-- The first question: the name that is asked for, and the offset behind the question.
unfoldable pub first_question : ℕ → Bytes → ℕ → Outcome OutOfFuel (Option (Text × ℕ))
unfolding decode_name ◌>>=◌
first_question fuel d zero = ok (some ([], 12))
first_question fuel d (suc n) = do
  found ← decode_name fuel d 12
  let (name, offset) = name_or_none found in
      if ltb (length d) (offset + 4) then ok none else ok (some (name, offset + 4))

-- The other questions.
unfoldable pub skip_questions : Bytes → ℕ → ℕ → Outcome OutOfFuel (Option ℕ)
unfolding skip_name ◌>>=◌
skip_questions d zero offset = ok (some offset)
skip_questions d (suc n) offset = do
  found ← skip_name d offset
  elim found [
    | none ↦ ok none
    | some new ↦ (if ltb (length d) (new + 4) then ok none else skip_questions d n (new + 4))
  ]

-- The record of an answer is added under the name that is asked for, if there is one.
abbrev pub named : Text → Ipv4Addr → List (Text × Ipv4Addr) → List (Text × Ipv4Addr)
named [] ip rest = rest
named (c ∷ name) ip rest = (c ∷ name, ip) ∷ rest

-- The loop over the answers.
unfoldable pub read_answers : ℕ → Bytes → Text → ℕ → ℕ → Outcome OutOfFuel (List (Text × Ipv4Addr))
unfolding decode_name be16_at ipv4_at ◌>>=◌
read_answers fuel d name zero offset = ok []
read_answers fuel d name (suc n) offset = do
  found ← decode_name fuel d offset
  elim found [
    | none ↦ ok []
    | some (_, new) ↦
        (if ltb (length d) (new + 10) then ok [] else do
          atype ← be16_at d new
          class ← be16_at d (new + 2)
          rdlength ← be16_at d (new + 8)
          if atype == 1 && rdlength == 4 && leb (new + 10 + 4) (length d)
              then (do
                ip ← ipv4_at d (new + 10)
                rest ← read_answers fuel d name n (new + 10 + rdlength)
                ok (named name ip rest))
              else read_answers fuel d name n (new + 10 + rdlength))
  ]

-- The sections behind the header.
unfoldable pub read_sections : ℕ → Bytes → ℕ → ℕ → Outcome OutOfFuel (List (Text × Ipv4Addr))
unfolding first_question skip_questions read_answers ◌>>=◌
read_sections fuel d questions answers = do
  first ← first_question fuel d questions
  elim first [
    | none ↦ ok []
    | some (name, offset) ↦ do
      others ← skip_questions d (questions - 1) offset
      elim others [ none ↦ ok [] | some start ↦ read_answers fuel d name answers start ]
  ]

-- `parse_dns_response`
unfoldable pub parse_dns_response : ℕ → Bytes → Outcome OutOfFuel (List (Text × Ipv4Addr))
unfolding read_sections be16_at ◌>>=◌
parse_dns_response fuel d = if ltb (length d) 12 then ok [] else do
  flags ← be16_at d 2
  if (flags / 2 ^ 15) % 2 == 1
      then (do
        questions ← be16_at d 4
        answers ← be16_at d 6
        if answers == 0 then ok [] else read_sections fuel d questions answers)
      else ok []
