-- ===== src/Packet/RoundTrip.antt =====
-- What the builder writes, the parser reads back.
use proxy_switcher.Address.{Ipv4Addr}
use proxy_switcher.Common.{
  ℕ, ◌+◌, ◌%◌, ◌≤◌, ◌≡◌, refl, arith, true, some, ◌++◌, take, drop, drop_all, length, ◌==◌,
}
use proxy_switcher.Common.Outcome.{ok, Bytes, slice_from, ◌>>=◌}
use proxy_switcher.Packet.Build.{ip_header, tcp_header, build_tcp_packet}
use proxy_switcher.Packet.Checksum.{write16, ip_checksum, tcp_checksum}
use proxy_switcher.Packet.Ip.{PacketError, IpHeader, parse_ip}
use proxy_switcher.Packet.Parse.{payload_from, parse_with_tcp, parse}
use proxy_switcher.Packet.Tcp.{TcpHeader, flags_of, parse_tcp}

-- Only the bytes behind the headers are left.
payload_from-le : (n : ℕ) (d : Bytes) → n ≤ length d → payload_from d n ≡ ok (drop n d)
unfolding payload_from
payload_from-le n d h = ground (arith, drop_all n d)

slice_from-le :
    (n : ℕ) (d : Bytes) → n ≤ length d → slice_from {E = PacketError} d n ≡ ok (drop n d)
unfolding slice_from
slice_from-le n d h = ground arith

-- A packet whose headers fit, and whose TCP header is read as `t`.
parse_with_tcp-ok :
    (d : Bytes) (ip : IpHeader) (t : TcpHeader)
    → ip.ihl + t.data_offset ≤ length d
    → parse_tcp (drop ip.ihl d) ≡ ok t
    → parse_with_tcp d ip
      ≡ ok (record { ip = ip; tcp = some t; payload = drop (ip.ihl + t.data_offset) d })
unfolding parse_with_tcp
parse_with_tcp-ok d ip t h e =
    rw (slice_from-le ip.ihl d (omega arith), ◌>>=◌)
      (rw (e, ◌>>=◌) (rw (payload_from-le (ip.ihl + t.data_offset) d h)))

parse-ok :
    (d : Bytes) (ip : IpHeader) (t : TcpHeader)
    → parse_ip d ≡ ok ip
    → (ip.protocol == 6) ≡ true
    → ip.ihl + t.data_offset ≤ length d
    → parse_tcp (drop ip.ihl d) ≡ ok t
    → parse d ≡ ok (record { ip = ip; tcp = some t; payload = drop (ip.ihl + t.data_offset) d })
unfolding parse
parse-ok d ip t e p h f = rw (e, ◌>>=◌) (rw p (parse_with_tcp-ok d ip t h f))

-- The headers that the parser sees, the two checksums apart.
abbrev pub sent_ip : Ipv4Addr → Ipv4Addr → Bytes → ℕ → IpHeader
sent_ip src dst payload checksum = record {
  version = 4;
  ihl = 20;
  total_length = (40 + length payload) % 65536;
  identification = 0;
  flags = 2;
  fragment_offset = 0;
  ttl = 64;
  protocol = 6;
  checksum = checksum;
  source = src;
  destination = dst;
}

abbrev pub sent_tcp : ℕ → ℕ → ℕ → ℕ → ℕ → ℕ → TcpHeader
sent_tcp src_port dst_port seq ack flags checksum = record {
  source_port = src_port;
  destination_port = dst_port;
  sequence_number = seq;
  acknowledgment_number = ack;
  data_offset = 20;
  flags = flags_of flags;
  window_size = 65535;
  checksum = checksum;
  urgent_pointer = 0;
}

module _ (src dst : Ipv4Addr) (src_port dst_port seq ack flags : ℕ) (payload : Bytes) where
  -- The bytes of the packet with the checksums `c` and `t`.
  abbrev pub laid_out : ℕ → ℕ → Bytes
  laid_out c t =
      write16
        (write16
          (ip_header (20 + 20 + length payload) 0 6 src dst
            ++ (tcp_header src_port dst_port seq ack flags ++ payload))
          10 c)
        36 t

  parse_ip-laid_out : (c t : ℕ) → parse_ip (laid_out c t) ≡ ok (sent_ip src dst payload c)
  unfolding parse_ip
  parse_ip-laid_out c t = ground arith

  parse_tcp-laid_out :
      (c t : ℕ)
      → parse_tcp (drop 20 (laid_out c t)) ≡ ok (sent_tcp src_port dst_port seq ack flags t)
  unfolding parse_tcp
  parse_tcp-laid_out c t = ground arith

  -- The checksums that are written.
  abbrev pub unsummed : Bytes
  unsummed =
      ip_header (20 + 20 + length payload) 0 6 src dst
      ++ (tcp_header src_port dst_port seq ack flags ++ payload)

  abbrev pub ip_sum : ℕ
  ip_sum = ip_checksum (take 20 unsummed)

  abbrev pub tcp_sum : ℕ
  tcp_sum = tcp_checksum src dst (drop 20 (write16 unsummed 10 ip_sum))

  -- The parser reads back every address, port, number, flag and byte that `build_tcp_packet` was
  -- given, the total length modulo 65536, and the checksums of the two headers.
  pub parse-build_tcp_packet :
      parse (build_tcp_packet src dst src_port dst_port seq ack flags payload)
      ≡ ok (record {
        ip = sent_ip src dst payload ip_sum;
        tcp = some (sent_tcp src_port dst_port seq ack flags tcp_sum);
        payload = payload;
      })
  unfolding build_tcp_packet
  parse-build_tcp_packet =
      parse-ok (laid_out ip_sum tcp_sum) (sent_ip src dst payload ip_sum)
        (sent_tcp src_port dst_port seq ack flags tcp_sum) (parse_ip-laid_out ip_sum tcp_sum) refl
        (omega arith) (parse_tcp-laid_out ip_sum tcp_sum)
