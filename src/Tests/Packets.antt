-- ===== src/Tests/Packets.antt =====
-- Packets: the theorems at concrete ones.
use proxy_switcher.Common.{◌≡◌, ◌≢◌, refl, arith, some, none, [], ◌∷◌, take, drop}
use proxy_switcher.Common.Outcome.{ok, err, panic, Bytes, ◌>>=◌, byte_at, be16_at, slice_from}
use proxy_switcher.Packet.Build.{build_tcp_packet}
use proxy_switcher.Packet.Checksum.{pseudo_header}
use proxy_switcher.Packet.Ip.{bad_ihl, parse_ip, ip_fields, ipv4_at}
use proxy_switcher.Packet.Parse.{ParsedPacket, parse, parse_without_tcp, payload_from}
use proxy_switcher.Packet.RoundTrip.{sent_ip, sent_tcp, ip_sum, tcp_sum, parse-build_tcp_packet}
use proxy_switcher.Packet.Total.{parse-ne-panic}
use proxy_switcher.Packet.Verifies.{Accepted, build_tcp_packet-Accepted}
use proxy_switcher.Tests.Values.{client, server}

-- A UDP datagram with a header of twenty bytes and two bytes of payload.
abbrev datagram : Bytes
datagram =
    0x45 ∷ 0 ∷ 0 ∷ 22 ∷ 0 ∷ 0 ∷ 0x40 ∷ 0 ∷ 64 ∷ 17 ∷ 0 ∷ 0 ∷ 10 ∷ 0 ∷ 0 ∷ 2 ∷ 93 ∷ 184 ∷ 216 ∷ 34
    ∷ 7 ∷ 8 ∷ []

abbrev read_datagram : ParsedPacket
read_datagram = record {
  ip = record {
    version = 4;
    ihl = 20;
    total_length = 22;
    identification = 0;
    flags = 2;
    fragment_offset = 0;
    ttl = 64;
    protocol = 17;
    checksum = 0;
    source = client;
    destination = server;
  };
  tcp = none;
  payload = 7 ∷ 8 ∷ [];
}

datagram_is_read : parse datagram ≡ ok read_datagram
unfolding parse parse_ip ip_fields ipv4_at byte_at be16_at slice_from payload_from parse_without_tcp
    ◌>>=◌
datagram_is_read = refl

short_header_is_refused : parse (0x44 ∷ datagram) ≡ err bad_ihl
unfolding parse parse_ip byte_at ◌>>=◌
short_header_is_refused = refl

parse-ne-panic_example : parse (0x4f ∷ datagram) ≢ panic
parse-ne-panic_example = parse-ne-panic (0x4f ∷ datagram)

parse-build_tcp_packet_example :
    parse (build_tcp_packet server client 443 40000 7 1001 0x18 (1 ∷ 2 ∷ 3 ∷ []))
    ≡ ok (record {
      ip =
          sent_ip server client
            (1 ∷ 2 ∷ 3 ∷ [])
            (ip_sum server client 443 40000 7 1001 0x18 (1 ∷ 2 ∷ 3 ∷ []));
      tcp = some (
          sent_tcp 443 40000 7 1001 0x18
            (tcp_sum server client 443 40000 7 1001 0x18 (1 ∷ 2 ∷ 3 ∷ [])));
      payload = 1 ∷ 2 ∷ 3 ∷ [];
    })
parse-build_tcp_packet_example =
    parse-build_tcp_packet server client 443 40000 7 1001 0x18 (1 ∷ 2 ∷ 3 ∷ [])

build_tcp_packet-Accepted_example :
    Accepted (take 20 (build_tcp_packet server client 443 40000 7 1001 0x18 (1 ∷ 2 ∷ 3 ∷ [])))
    × Accepted (
        pseudo_header server client 6
          (drop 20 (build_tcp_packet server client 443 40000 7 1001 0x18 (1 ∷ 2 ∷ 3 ∷ []))))
build_tcp_packet-Accepted_example =
    build_tcp_packet-Accepted server client 443 40000 7 1001 0x18 (1 ∷ 2 ∷ 3 ∷ []) (record {
      src_bytes = record {
        a_byte = omega arith;
        b_byte = omega arith;
        c_byte = omega arith;
        d_byte = omega arith;
      };
      dst_bytes = record {
        a_byte = omega arith;
        b_byte = omega arith;
        c_byte = omega arith;
        d_byte = omega arith;
      };
      src_port_u16 = omega arith;
      dst_port_u16 = omega arith;
      seq_u32 = omega arith;
      ack_u32 = omega arith;
      flags_u8 = omega arith;
      payload_bytes = (omega arith, (omega arith, (omega arith, tt)));
      fits = omega arith;
    })
