-- ===== src/Packet/Verifies.antt =====
-- The checksums that the builder writes are the ones a receiver accepts.
use proxy_switcher.Address.{Ipv4Addr, IsIpv4}
use proxy_switcher.Common.{
  ℕ, ◌+◌, ◌-◌, ◌*◌, ◌%◌, ◌^◌, ◌≤◌, ◌<◌, ◌≡◌, ◌∙◌, ap, arith, [], ◌∷◌, set, take, drop, length,
}
use proxy_switcher.Common.Outcome.{Bytes}
use proxy_switcher.Packet.Build.{build_tcp_packet}
use proxy_switcher.Packet.Checksum.{
  sum_words, fold_carries, ip_checksum, tcp_checksum, pseudo_header,
}
use proxy_switcher.Packet.RoundTrip.{laid_out, unsummed, ip_sum, tcp_sum}

-- Every entry is a byte.
abbrev pub IsBytes : Bytes → Type 0
IsBytes [] = Unit {0}
IsBytes (b ∷ d) = (b < 256) × IsBytes d

-- The sum of the big-endian words, with no wrap.
pub words : Bytes → ℕ
words [] = 0
words (hi ∷ []) = hi * 256
words (hi ∷ lo ∷ rest) = hi * 256 + lo + words rest

words-le : (d : Bytes) → IsBytes d → words d ≤ 65280 * length d
unfolding words
words-le [] h = omega arith
words-le (hi ∷ []) h = omega arith
words-le (hi ∷ lo ∷ rest) h = omega (arith, words-le rest h.1.1)

sum_words-words : (acc : ℕ) (d : Bytes) → acc + words d < 2 ^ 32 → sum_words acc d ≡ acc + words d
unfolding sum_words words
sum_words-words acc [] h = omega arith
sum_words-words acc (hi ∷ []) h = omega arith
sum_words-words acc (hi ∷ lo ∷ rest) h =
    omega (arith, sum_words-words ((acc + (hi * 256 + lo)) % 2 ^ 32) rest (omega arith))

-- Two rounds leave no carry, and keep the sum modulo 65535.
fold_carries-lt : (s : ℕ) → s < 2 ^ 32 → fold_carries 2 s < 65536
unfolding fold_carries
fold_carries-lt s h = ground arith

-- The check of a receiver: with the complement added in, the folded sum is all ones.
fold_carries_complement :
    (s : ℕ) → s < 2 ^ 32 - 65536 → fold_carries 2 (s + (65535 - fold_carries 2 s % 65536)) ≡ 65535
unfolding fold_carries
fold_carries_complement s h = ground arith

-- A receiver's check of a header or of a segment behind its pseudo header.
abbrev pub Accepted : Bytes → Type 0
Accepted d = fold_carries 2 (sum_words 0 d) ≡ 65535

sum_words-zero : (d : Bytes) → words d < 2 ^ 32 → sum_words 0 d ≡ words d
sum_words-zero d h = omega (arith, sum_words-words 0 d (omega arith))

ip_checksum-words :
    (d : Bytes) → words d < 2 ^ 32 → ip_checksum d ≡ 65535 - fold_carries 2 (words d) % 65536
unfolding ip_checksum
ip_checksum-words d h = ap (λ s. 65535 - fold_carries 2 s % 65536) (sum_words-zero d h)

Accepted-complement :
    (d d' : Bytes) → words d < 2 ^ 32 - 65536 → words d' ≡ words d + ip_checksum d → Accepted d'
Accepted-complement d d' h e =
    let sum = ip_checksum-words d (omega arith) in
    rw (sum_words-zero d' (omega arith), e, sum) (fold_carries_complement (words d) h)

module _ (src dst : Ipv4Addr) (src_port dst_port seq ack flags : ℕ) (payload : Bytes) where
  ip_words :
      (c t : ℕ)
      → words (take 20 (laid_out src dst src_port dst_port seq ack flags payload c t))
        ≡ words (take 20 (unsummed src dst src_port dst_port seq ack flags payload)) + c
  unfolding words
  ip_words c t = omega arith

  tcp_words :
      (c t : ℕ)
      → words (
          pseudo_header src dst 6
            (drop 20 (laid_out src dst src_port dst_port seq ack flags payload c t)))
        ≡ words (
            pseudo_header src dst 6
              (drop 20 (unsummed src dst src_port dst_port seq ack flags payload)))
          + t
  unfolding words
  tcp_words c t = omega arith

  tcp_checksum-eq :
      (segment : Bytes)
      → 18 ≤ length segment
      → tcp_checksum src dst segment
        ≡ ip_checksum (set (set (pseudo_header src dst 6 segment) 28 0) 29 0)
  unfolding tcp_checksum
  tcp_checksum-eq segment h = ground arith

  -- The arguments are machine values, and the packet fits in an IPv4 packet.
  pub record AreFields : Type 0 where
    pub src_bytes : IsIpv4 src
    pub dst_bytes : IsIpv4 dst
    pub src_port_u16 : src_port < 65536
    pub dst_port_u16 : dst_port < 65536
    pub seq_u32 : seq < 2 ^ 32
    pub ack_u32 : ack < 2 ^ 32
    pub flags_u8 : flags < 256
    pub payload_bytes : IsBytes payload
    pub fits : 40 + length payload < 65536

  words_bound :
      AreFields
      → (words (take 20 (unsummed src dst src_port dst_port seq ack flags payload))
          < 2 ^ 32 - 65536)
        × (words (
              pseudo_header src dst 6
                (drop 20 (unsummed src dst src_port dst_port seq ack flags payload)))
            < 2 ^ 32 - 65536)
  unfolding words
  words_bound f = omega (arith, words-le payload f.payload_bytes)

  tcp_sum-eq :
      tcp_sum src dst src_port dst_port seq ack flags payload
      ≡ ip_checksum (
          pseudo_header src dst 6
            (drop 20 (unsummed src dst src_port dst_port seq ack flags payload)))
  tcp_sum-eq =
      tcp_checksum-eq (drop 20 (unsummed src dst src_port dst_port seq ack flags payload))
        (omega arith)

  -- In every packet that `build_tcp_packet` writes from machine values and that fits in an IPv4
  -- packet, both checksums are right: the folded sum of the IP header, and that of the segment
  -- behind its pseudo header, is 0xffff, which is what a receiver checks.
  pub build_tcp_packet-Accepted :
      AreFields
      → let pkt = build_tcp_packet src dst src_port dst_port seq ack flags payload in
        Accepted (take 20 pkt) × Accepted (pseudo_header src dst 6 (drop 20 pkt))
  unfolding build_tcp_packet
  build_tcp_packet-Accepted f =
      let c = ip_sum src dst src_port dst_port seq ack flags payload in
      let t = tcp_sum src dst src_port dst_port seq ack flags payload in
      (
        Accepted-complement (take 20 (unsummed src dst src_port dst_port seq ack flags payload)) _
            (words_bound f).0 (ip_words c t),
        Accepted-complement
            (pseudo_header src dst 6
              (drop 20 (unsummed src dst src_port dst_port seq ack flags payload)))
            _ (words_bound f).1 (tcp_words c t ∙ rw tcp_sum-eq),
      )
