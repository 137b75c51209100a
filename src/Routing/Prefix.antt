-- ===== src/Routing/Prefix.antt =====
-- An address range is a prefix: the masks of `matches_cidr` compare the leading bits.
use Prim.Native.Nat.{bit_and}
use native.Mathlib.Nat.{div-eq_of_lt}
use proxy_switcher.Address.{Ipv4Addr, IsIpv4, IpAddr, IsIpAddr, v4, v6, to_u32}
use proxy_switcher.Common.{
  ℕ, zero, suc, ◌+◌, ◌-◌, ◌*◌, ◌/◌, ◌%◌, ◌^◌, ◌≤◌, ◌<◌, ◌≡◌, ◌↔◌, refl, sym, subst, ◌∙◌, Bool, true,
  ◌&&◌, arith, tests, inl, inr, ltb, ◌==◌, ==_iff, Bool-cases,
}
use proxy_switcher.Common.Bits.{ones, ones_then_zeros, high-div, masked_iff}
use proxy_switcher.Routing.Cidr.{in_network, network_matches}

abbrev mask : ℕ → ℕ → ℕ
mask bits prefix = (2 ^ bits - 1) * 2 ^ (bits - prefix) % 2 ^ bits

all_upto : ℕ → (ℕ → Bool) → Bool
all_upto zero p = p 0
all_upto (suc n) p = p (suc n) && all_upto n p

all_upto-le : (n : ℕ) (p : ℕ → Bool) (x : ℕ) → all_upto n p ≡ true → x ≤ n → p x ≡ true
unfolding all_upto
all_upto-le zero p x h le = subst (λ y. p y ≡ true) (omega arith) h
all_upto-le (suc n) p x h le = elim (Bool-cases (x == suc n)) [
  | inl e ↦ subst (λ y. p y ≡ true) (sym ((==_iff x (suc n)).0 e)) (ground arith)
  | inr e ↦ all_upto-le n p x (ground arith) (ground arith)
]

-- The mask of a prefix is that many ones, for every prefix of either family.
mask_table : ℕ → Bool
mask_table bits = all_upto bits (λ p. mask bits p == ones_then_zeros p (bits - p))

mask_table-32 : mask_table 32 ≡ true
unfolding mask_table all_upto ones_then_zeros ones
mask_table-32 = refl

mask_table-128 : mask_table 128 ≡ true
unfolding mask_table all_upto ones_then_zeros ones
mask_table-128 = refl

mask-ones :
    (bits prefix : ℕ)
    → mask_table bits ≡ true
    → prefix ≤ bits
    → mask bits prefix ≡ ones_then_zeros prefix (bits - prefix)
unfolding mask_table
mask-ones bits prefix h le = (==_iff _ _).0 (all_upto-le bits _ prefix h le)

module _ (bits net addr prefix : ℕ) where
  -- The numbers agree in their first `prefix` bits.
  abbrev pub SamePrefix : Type 0
  SamePrefix = net / 2 ^ (bits - prefix) ≡ addr / 2 ^ (bits - prefix)

  masked-SamePrefix :
      mask_table bits ≡ true
      → prefix ≤ bits
      → net < 2 ^ bits
      → addr < 2 ^ bits
      → (bit_and net (mask bits prefix) ≡ bit_and addr (mask bits prefix)) ↔ SamePrefix
  masked-SamePrefix table le hn ha =
      let w : bits ≡ prefix + (bits - prefix) = omega arith in
      rw
        (
          mask-ones bits prefix table le,
          ← high-div (bits - prefix) net,
          ← high-div (bits - prefix) addr,
        )
        (masked_iff prefix (bits - prefix) net addr (subst (λ b. net < 2 ^ b) w hn)
          (subst (λ b. addr < 2 ^ b) w ha))

  in_network_zero : prefix ≡ 0 → net < 2 ^ bits → addr < 2 ^ bits → SamePrefix
  in_network_zero z hn ha =
      let e : bits - prefix ≡ bits = omega arith in rw e (div-eq_of_lt hn ∙ sym (div-eq_of_lt ha))

  -- The test passes exactly for a prefix of the family's length whose leading bits agree.
  in_network_iff :
      mask_table bits ≡ true
      → net < 2 ^ bits
      → addr < 2 ^ bits
      → (in_network bits net addr prefix ≡ true) ↔ (prefix ≤ bits) × SamePrefix
  unfolding in_network
  in_network_iff table hn ha = elim (Bool-cases (prefix == 0)) [
    | inl z ↦
        let e = (==_iff prefix 0).0 z in
        rw z (λ _. (omega arith, in_network_zero e hn ha), λ _. refl)
    | inr nz ↦ rw nz (elim (Bool-cases (ltb bits prefix)) [
      | inl big ↦ rw big (λ h. cc, λ h. absurd (omega (tests, h.0)))
      | inr small ↦
          let le : prefix ≤ bits = omega tests in
          let same = masked-SamePrefix table le hn ha in
          rw small (λ h. (le, same.0 ((==_iff _ _).0 h)), λ h. (==_iff _ _).1 (same.1 h.1))
    ])
  ]

-- An address lies in a range of its own family whose prefix is no longer than its bits, if the
-- leading bits agree.
abbrev pub InRange : IpAddr → ℕ → IpAddr → Type 0
InRange (v4 net) prefix (v4 ip) = (prefix ≤ 32) × SamePrefix 32 (to_u32 net) (to_u32 ip) prefix
InRange (v6 net) prefix (v6 ip) = (prefix ≤ 128) × SamePrefix 128 net ip prefix
InRange _ prefix _ = ⊥

to_u32-lt : (ip : Ipv4Addr) → IsIpv4 ip → to_u32 ip < 2 ^ 32
to_u32-lt ip h = omega arith

-- The masked comparison of `matches_cidr` holds exactly for the addresses of the range: those of
-- the same family whose first `prefix` bits are the network's, `prefix` being at most 32 or 128.
pub network_matches_iff :
    (net : IpAddr) (prefix : ℕ) (ip : IpAddr)
    → IsIpAddr net
    → IsIpAddr ip
    → (network_matches net prefix ip ≡ true) ↔ InRange net prefix ip
unfolding network_matches
network_matches_iff (v4 net) prefix (v4 ip) hn ha =
    in_network_iff 32 (to_u32 net) (to_u32 ip) prefix mask_table-32 (to_u32-lt net hn)
      (to_u32-lt ip ha)
network_matches_iff (v6 net) prefix (v6 ip) hn ha =
    in_network_iff 128 net ip prefix mask_table-128 hn ha
network_matches_iff (v4 net) prefix (v6 ip) hn ha = (λ h. cc, λ h. absurd h)
network_matches_iff (v6 net) prefix (v4 ip) hn ha = (λ h. cc, λ h. absurd h)
