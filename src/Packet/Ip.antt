-- ===== src/Packet/Ip.antt =====
-- crates/proxy-core/src/packet/ip.rs. The errors are the texts of the source.
use proxy_switcher.Address.{Ipv4Addr}
use proxy_switcher.Common.{ℕ, ◌*◌, ◌+◌, ◌/◌, ◌%◌, not, ◌||◌, ltb, ◌==◌, if◌then◌else◌, length}
use proxy_switcher.Common.Outcome.{Outcome, ok, err, ◌>>=◌, Bytes, byte_at, be16_at}

pub data PacketError : Type 0 where
  packet_too_short not_ipv4 bad_ihl tcp_header_too_short bad_tcp_data_offset : PacketError

pub record IpHeader : Type 0 where
  pub version : ℕ
  pub ihl : ℕ
  pub total_length : ℕ
  pub identification : ℕ
  pub flags : ℕ
  pub fragment_offset : ℕ
  pub ttl : ℕ
  pub protocol : ℕ
  pub checksum : ℕ
  pub source : Ipv4Addr
  pub destination : Ipv4Addr

-- `Ipv4Addr::new(data[i], data[i + 1], data[i + 2], data[i + 3])`
unfoldable pub ipv4_at : {E : Type 0} → Bytes → ℕ → Outcome E Ipv4Addr
unfolding byte_at ◌>>=◌
ipv4_at d i = do
  a ← byte_at d i
  b ← byte_at d (i + 1)
  c ← byte_at d (i + 2)
  e ← byte_at d (i + 3)
  ok (record { a = a; b = b; c = c; d = e })

-- The header's fields, once its length is known to be in range.
unfoldable pub ip_fields : Bytes → ℕ → Outcome PacketError IpHeader
unfolding ◌>>=◌ byte_at be16_at ipv4_at
ip_fields d ihl = do
  total_length ← be16_at d 2
  identification ← be16_at d 4
  f ← byte_at d 6
  low ← byte_at d 7
  ttl ← byte_at d 8
  protocol ← byte_at d 9
  checksum ← be16_at d 10
  source ← ipv4_at d 12
  destination ← ipv4_at d 16
  ok (record {
    version = 4;
    ihl = ihl;
    total_length = total_length;
    identification = identification;
    flags = f / 32;
    fragment_offset = (f % 32 * 256 + low) % 8192;
    ttl = ttl;
    protocol = protocol;
    checksum = checksum;
    source = source;
    destination = destination;
  })

-- `IpHeader::parse`
unfoldable pub parse_ip : Bytes → Outcome PacketError IpHeader
unfolding ◌>>=◌ byte_at ip_fields
parse_ip d =
    if ltb (length d) 20
    then err packet_too_short
    else byte_at d 0 >>= λ v_ihl.
        let ihl = v_ihl % 16 * 4 in
        if not (v_ihl / 16 == 4)
        then err not_ipv4
        else if ltb ihl 20 || ltb (length d) ihl
        then err bad_ihl
        else ip_fields d ihl
