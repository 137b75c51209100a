-- ===== src/Packet/Build.antt =====
-- The packets that the router writes to the device: crates/proxy-core/src/packet/mod.rs.
-- u16 and u32 arithmetic wraps, as in a release build.
use proxy_switcher.Address.{Ipv4Addr, octets}
use proxy_switcher.Common.{
  ℕ, ◌+◌, ◌%◌, ◌^◌, ◌||◌, Option, none, some, [], ◌∷◌, ◌++◌, ltb, if◌then◌else◌, length, take, drop,
}
use proxy_switcher.Common.Outcome.{Bytes}
use proxy_switcher.Packet.Checksum.{be16, be32, write16, ip_checksum, tcp_checksum, udp_checksum}
use proxy_switcher.Packet.Parse.{ParsedPacket, is_tcp_syn, is_tcp_fin}
use proxy_switcher.Packet.Tcp.{TcpHeader}

-- The twenty bytes of an IPv4 header with no options and a checksum of zero.
abbrev pub ip_header : ℕ → ℕ → ℕ → Ipv4Addr → Ipv4Addr → Bytes
ip_header total identification protocol src dst =
    0x45
    ∷ 0
    ∷ (be16 (total % 65536)
        ++ (be16 identification ++ (0x40 ∷ 0 ∷ 64 ∷ protocol ∷ 0 ∷ 0 ∷ (octets src ++ octets dst))))

-- The twenty bytes of a TCP header with no options and a checksum of zero.
abbrev pub tcp_header : ℕ → ℕ → ℕ → ℕ → ℕ → Bytes
tcp_header src_port dst_port seq ack flags =
    be16 src_port
    ++ (be16 dst_port
        ++ (be32 seq ++ (be32 ack ++ (0x50 ∷ flags ∷ (be16 65535 ++ (0 ∷ 0 ∷ 0 ∷ 0 ∷ []))))))

-- The checksums are written last, the IP one over the first twenty bytes.
abbrev pub finish_tcp : Ipv4Addr → Ipv4Addr → Bytes → Bytes
finish_tcp src dst pkt =
    let summed = write16 pkt 10 (ip_checksum (take 20 pkt)) in
    write16 summed 36 (tcp_checksum src dst (drop 20 summed))

unfoldable pub build_tcp_packet : Ipv4Addr → Ipv4Addr → ℕ → ℕ → ℕ → ℕ → ℕ → Bytes → Bytes
build_tcp_packet src dst src_port dst_port seq ack flags payload = finish_tcp src dst (
    ip_header (20 + 20 + length payload) 0 6 src dst
    ++ (tcp_header src_port dst_port seq ack flags ++ payload))

-- What a response acknowledges: the handshake or the end of a stream takes one number.
unfoldable pub response_ack : ParsedPacket → TcpHeader → ℕ
response_ack original tcp =
    if is_tcp_syn original || is_tcp_fin original
    then (tcp.sequence_number + 1) % 2 ^ 32
    else if ltb 0 (length original.payload % 2 ^ 32)
    then (tcp.sequence_number + length original.payload % 2 ^ 32) % 2 ^ 32
    else tcp.acknowledgment_number

respond_to : ParsedPacket → Bytes → Option TcpHeader → Bytes
unfolding response_ack
respond_to original payload none = []
respond_to original payload (some tcp) = finish_tcp original.ip.destination original.ip.source (
    ip_header (20 + 20 + length payload) ((original.ip.identification + 1) % 65536) 6
      original.ip.destination original.ip.source
    ++ (tcp_header tcp.destination_port tcp.source_port tcp.acknowledgment_number
          (response_ack original tcp) 0x10
        ++ payload))

unfoldable pub build_response_packet : ParsedPacket → Bytes → Bytes
unfolding respond_to
build_response_packet original payload = respond_to original payload original.tcp

unfoldable pub build_udp_packet : Ipv4Addr → Ipv4Addr → ℕ → ℕ → Bytes → Bytes
build_udp_packet src dst src_port dst_port payload =
    let udp_len = (8 + length payload % 65536) % 65536 in
    let pkt =
      ip_header (20 + udp_len) 0 17 src dst
      ++ (be16 src_port ++ (be16 dst_port ++ (be16 udp_len ++ (0 ∷ 0 ∷ payload)))) in
    let summed = write16 pkt 10 (ip_checksum (take 20 pkt)) in
    write16 summed 26 (udp_checksum src dst (drop 20 summed))
