-- ===== src/Packet/Checksum.antt =====
-- `ip_checksum`, `tcp_checksum` and `udp_checksum` of crates/proxy-core/src/packet/mod.rs.
use proxy_switcher.Address.{Ipv4Addr, octets}
use proxy_switcher.Common.{
  ℕ, zero, suc, ◌+◌, ◌-◌, ◌*◌, ◌/◌, ◌%◌, ◌^◌, [], ◌∷◌, ◌++◌, leb, ◌==◌, if◌then◌else◌, length, set,
}
use proxy_switcher.Common.Outcome.{Bytes}

-- `x.to_be_bytes()` of a u16 and of a u32.
abbrev pub be16 : ℕ → Bytes
be16 x = x / 256 ∷ x % 256 ∷ []

abbrev pub be32 : ℕ → Bytes
be32 x = x / 16777216 ∷ x / 65536 % 256 ∷ x / 256 % 256 ∷ x % 256 ∷ []

-- `pkt[i] = (x >> 8) as u8; pkt[i + 1] = (x & 0xFF) as u8;`
abbrev pub write16 : Bytes → ℕ → ℕ → Bytes
write16 pkt i x = set (set pkt i (x / 256)) (i + 1) (x % 256)

-- The loop over `data.chunks(2)`; a last single byte is the high one of its word.
unfoldable pub sum_words : ℕ → Bytes → ℕ
sum_words sum [] = sum
sum_words sum (hi ∷ []) = (sum + hi * 256) % 2 ^ 32
sum_words sum (hi ∷ lo ∷ rest) = sum_words ((sum + (hi * 256 + lo)) % 2 ^ 32) rest

-- `while sum >> 16 != 0 { sum = (sum & 0xFFFF) + (sum >> 16); }`
unfoldable pub fold_carries : ℕ → ℕ → ℕ
fold_carries zero sum = sum
fold_carries (suc fuel) sum =
    let rest = fold_carries fuel (sum % 65536 + sum / 65536) in
    if sum / 65536 == 0 then sum else rest

-- Two rounds empty the high half of any u32.
unfoldable pub ip_checksum : Bytes → ℕ
unfolding sum_words fold_carries
ip_checksum d = 65535 - fold_carries 2 (sum_words 0 d) % 65536

-- The pseudo header in front of a segment, `protocol` being 6 or 17.
abbrev pub pseudo_header : Ipv4Addr → Ipv4Addr → ℕ → Bytes → Bytes
pseudo_header src dst protocol segment =
    octets src ++ (octets dst ++ (0 ∷ protocol ∷ (be16 (length segment % 65536) ++ segment)))

unfoldable pub tcp_checksum : Ipv4Addr → Ipv4Addr → Bytes → ℕ
tcp_checksum src dst segment =
    let buf = pseudo_header src dst 6 segment in
    ip_checksum (if leb 30 (length buf) then set (set buf 28 0) 29 0 else buf)

unfoldable pub udp_checksum : Ipv4Addr → Ipv4Addr → Bytes → ℕ
udp_checksum src dst segment =
    let buf = pseudo_header src dst 17 segment in
    ip_checksum (if leb 20 (length buf) then set (set buf 18 0) 19 0 else buf)
