-- ===== src/Packet/Total.antt =====
-- The bounds checks of the packet parser: no input makes an index or a slice panic.
use proxy_switcher.Common.{
  ℕ, ◌+◌, ◌*◌, ◌/◌, ◌%◌, ◌≤◌, ◌<◌, ◌≡◌, ◌≢◌, refl, arith, ltb, ◌==◌, ◌||◌, not, length, length-drop,
  drop, tests, subst, sym, ap, ◌∙◌, ◌-◌, Option, none, some, false, drop_all,
}
use proxy_switcher.Common.Outcome.{
  ok, panic, Bytes, Safe, returns, fails, Any, Safe-bind, Safe-if, Safe-map, Safe-ok, Safe-ne-panic,
  byte_at-Safe, be16_at-Safe, be32_at-Safe, slice_from-Safe,
}
use proxy_switcher.Packet.Ip.{IpHeader, ipv4_at, ip_fields, parse_ip}
use proxy_switcher.Packet.Tcp.{TcpHeader, tcp_fields, parse_tcp}
use proxy_switcher.Packet.Parse.{
  ParsedPacket, payload_from, parse_with_tcp, parse_without_tcp, parse,
}

pub ipv4_at-Safe :
    {E : Type 0} (d : Bytes) (i : ℕ) → i + 3 < length d → Safe {E = E} Any (ipv4_at d i)
unfolding ipv4_at
ipv4_at-Safe d i h = Safe-bind _ _ (byte_at-Safe d i (omega arith)) λ a _.
    Safe-bind _ _ (byte_at-Safe d (i + 1) (omega arith)) λ b _.
      Safe-bind _ _ (byte_at-Safe d (i + 2) (omega arith))
        λ c _. Safe-bind _ _ (byte_at-Safe d (i + 3) h) λ e _. returns tt

ip_fields-Safe : (d : Bytes) (ihl : ℕ) → 20 ≤ length d → Safe (λ h. h.ihl ≡ ihl) (ip_fields d ihl)
unfolding ip_fields
ip_fields-Safe d ihl h = Safe-bind _ _ (be16_at-Safe d 2 (omega arith)) λ _ _.
    Safe-bind _ _ (be16_at-Safe d 4 (omega arith)) λ _ _.
      Safe-bind _ _ (byte_at-Safe d 6 (omega arith)) λ _ _.
        Safe-bind _ _ (byte_at-Safe d 7 (omega arith)) λ _ _.
          Safe-bind _ _ (byte_at-Safe d 8 (omega arith)) λ _ _.
            Safe-bind _ _ (byte_at-Safe d 9 (omega arith)) λ _ _.
              Safe-bind _ _ (be16_at-Safe d 10 (omega arith)) λ _ _.
                Safe-bind _ _ (ipv4_at-Safe d 12 (omega arith))
                  λ _ _. Safe-bind _ _ (ipv4_at-Safe d 16 (omega arith)) λ _ _. returns refl

-- The header that is returned fits in the data and is no shorter than a bare one.
abbrev pub FitsIn : Bytes → ℕ → Type 0
FitsIn d n = (20 ≤ n) × (n ≤ length d)

ihl_test :
    (n v : ℕ)
    → (ltb (v % 16 * 4) 20 || ltb n (v % 16 * 4)) ≡ false
    → (20 ≤ v % 16 * 4) × (v % 16 * 4 ≤ n)
ihl_test n v h = ground arith

parse_ip-Safe : (d : Bytes) → Safe (λ h. FitsIn d h.ihl) (parse_ip d)
unfolding parse_ip
parse_ip-Safe d =
    Safe-if (ltb (length d) 20) _ _ (λ _. fails)
      λ long. Safe-bind _ _ (byte_at-Safe d 0 (omega tests)) λ v _.
        Safe-if (not (v / 16 == 4)) _ _ (λ _. fails)
          λ _.
            Safe-if (ltb (v % 16 * 4) 20 || ltb (length d) (v % 16 * 4)) _ _ (λ _. fails)
              λ fits.
                Safe-map (λ h e. subst (FitsIn d) (sym e) (ihl_test (length d) v fits))
                  (ip_fields-Safe d (v % 16 * 4) (omega tests))

tcp_fields-Safe :
    (d : Bytes) (doff : ℕ) → 20 ≤ length d → Safe (λ h. h.data_offset ≡ doff) (tcp_fields d doff)
unfolding tcp_fields
tcp_fields-Safe d doff h = Safe-bind _ _ (byte_at-Safe d 13 (omega arith)) λ _ _.
    Safe-bind _ _ (be16_at-Safe d 0 (omega arith)) λ _ _.
      Safe-bind _ _ (be16_at-Safe d 2 (omega arith)) λ _ _.
        Safe-bind _ _ (be32_at-Safe d 4 (omega arith)) λ _ _.
          Safe-bind _ _ (be32_at-Safe d 8 (omega arith)) λ _ _.
            Safe-bind _ _ (be16_at-Safe d 14 (omega arith)) λ _ _.
              Safe-bind _ _ (be16_at-Safe d 16 (omega arith))
                λ _ _. Safe-bind _ _ (be16_at-Safe d 18 (omega arith)) λ _ _. returns refl

doff_test :
    (n b : ℕ)
    → (ltb (b / 16 * 4) 20 || ltb n (b / 16 * 4)) ≡ false
    → (20 ≤ b / 16 * 4) × (b / 16 * 4 ≤ n)
doff_test n b h = ground arith

parse_tcp-Safe : (d : Bytes) → Safe (λ h. FitsIn d h.data_offset) (parse_tcp d)
unfolding parse_tcp
parse_tcp-Safe d =
    Safe-if (ltb (length d) 20) _ _ (λ _. fails)
      λ long. Safe-bind _ _ (byte_at-Safe d 12 (omega tests)) λ b _.
        Safe-if (ltb (b / 16 * 4) 20 || ltb (length d) (b / 16 * 4)) _ _ (λ _. fails)
          λ fits.
            Safe-map (λ h e. subst (FitsIn d) (sym e) (doff_test (length d) b fits))
              (tcp_fields-Safe d (b / 16 * 4) (omega tests))

-- The payload is what follows the headers, where they end inside the data.
payload_from-Safe : (d : Bytes) (n : ℕ) → n ≤ length d → Safe (λ r. r ≡ drop n d) (payload_from d n)
unfolding payload_from
payload_from-Safe d n h =
    Safe-if (ltb n (length d)) _ _ (λ lt. slice_from-Safe d n (omega tests))
      λ ge. returns (sym (drop_all n d (omega tests)))

-- What `parse` promises of a packet: its headers lie in the data, one behind the other, and its
-- payload is the rest.
abbrev pub HeadersFit : Bytes → ParsedPacket → Option TcpHeader → Type 0
HeadersFit d p none = (20 ≤ p.ip.ihl) × (p.ip.ihl ≤ length d) × (p.payload ≡ drop p.ip.ihl d)
HeadersFit d p (some t) =
    (20 ≤ p.ip.ihl)
    × (20 ≤ t.data_offset)
    × (p.ip.ihl + t.data_offset ≤ length d)
    × (p.payload ≡ drop (p.ip.ihl + t.data_offset) d)

parse_with_tcp-Safe :
    (d : Bytes) (ip : IpHeader)
    → FitsIn d ip.ihl
    → Safe (λ p. HeadersFit d p p.tcp) (parse_with_tcp d ip)
unfolding parse_with_tcp
parse_with_tcp-Safe d ip fits = Safe-bind _ _ (slice_from-Safe d ip.ihl fits.1) λ seg e.
    Safe-bind _ _ (parse_tcp-Safe seg) λ t f.
      let len : length seg ≡ length d - ip.ihl = ap length e ∙ length-drop ip.ihl d in
      Safe-bind _ _ (payload_from-Safe d (ip.ihl + t.data_offset) (omega arith))
        λ payload q. returns (fits.0, f.0, omega arith, q)

parse_without_tcp-Safe :
    (d : Bytes) (ip : IpHeader)
    → FitsIn d ip.ihl
    → Safe (λ p. HeadersFit d p p.tcp) (parse_without_tcp d ip)
unfolding parse_without_tcp
parse_without_tcp-Safe d ip fits =
    Safe-bind _ _ (payload_from-Safe d ip.ihl fits.1) λ payload q. returns (fits.0, fits.1, q)

parse-Safe : (d : Bytes) → Safe (λ p. HeadersFit d p p.tcp) (parse d)
unfolding parse
parse-Safe d = Safe-bind _ _ (parse_ip-Safe d) λ ip fits.
    Safe-if (ip.protocol == 6) _ _ (λ _. parse_with_tcp-Safe d ip fits)
      λ _. parse_without_tcp-Safe d ip fits

-- No data makes the packet parser index or slice out of range.
pub parse-ne-panic : (d : Bytes) → parse d ≢ panic
parse-ne-panic d = Safe-ne-panic (parse-Safe d)

-- Where a packet is returned, its IP header and, if it has one, its TCP header are at least twenty
-- bytes long and lie one behind the other inside the data, and the payload is what follows them.
pub parse-HeadersFit : (d : Bytes) (p : ParsedPacket) → parse d ≡ ok p → HeadersFit d p p.tcp
parse-HeadersFit d p e = Safe-ok (parse-Safe d) e
