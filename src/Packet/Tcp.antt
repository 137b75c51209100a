-- ===== src/Packet/Tcp.antt =====
-- crates/proxy-core/src/packet/tcp.rs.
use proxy_switcher.Common.{ℕ, ◌*◌, ◌/◌, ◌%◌, ◌^◌, Bool, ◌||◌, ltb, ◌==◌, if◌then◌else◌, length}
use proxy_switcher.Common.Outcome.{Outcome, ok, err, ◌>>=◌, Bytes, byte_at, be16_at, be32_at}
use proxy_switcher.Packet.Ip.{PacketError, tcp_header_too_short, bad_tcp_data_offset}

pub record TcpFlags : Type 0 where
  pub fin : Bool
  pub syn : Bool
  pub rst : Bool
  pub psh : Bool
  pub ack : Bool
  pub urg : Bool

pub record TcpHeader : Type 0 where
  pub source_port : ℕ
  pub destination_port : ℕ
  pub sequence_number : ℕ
  pub acknowledgment_number : ℕ
  pub data_offset : ℕ
  pub flags : TcpFlags
  pub window_size : ℕ
  pub checksum : ℕ
  pub urgent_pointer : ℕ

-- `(f & (1 << k)) != 0`
abbrev pub bit : ℕ → ℕ → Bool
bit f k = f / 2 ^ k % 2 == 1

abbrev pub flags_of : ℕ → TcpFlags
flags_of f = record {
  fin = bit f 0;
  syn = bit f 1;
  rst = bit f 2;
  psh = bit f 3;
  ack = bit f 4;
  urg = bit f 5;
}

-- The header's fields, once its length is known to be in range.
unfoldable pub tcp_fields : Bytes → ℕ → Outcome PacketError TcpHeader
unfolding ◌>>=◌ byte_at be16_at be32_at
tcp_fields d doff = do
  f ← byte_at d 13
  source_port ← be16_at d 0
  destination_port ← be16_at d 2
  sequence_number ← be32_at d 4
  acknowledgment_number ← be32_at d 8
  window_size ← be16_at d 14
  checksum ← be16_at d 16
  urgent_pointer ← be16_at d 18
  ok (record {
    source_port = source_port;
    destination_port = destination_port;
    sequence_number = sequence_number;
    acknowledgment_number = acknowledgment_number;
    data_offset = doff;
    flags = flags_of f;
    window_size = window_size;
    checksum = checksum;
    urgent_pointer = urgent_pointer;
  })

-- `TcpHeader::parse`
unfoldable pub parse_tcp : Bytes → Outcome PacketError TcpHeader
unfolding ◌>>=◌ byte_at tcp_fields
parse_tcp d =
    if ltb (length d) 20
    then err tcp_header_too_short
    else byte_at d 12 >>= λ b.
        let doff = b / 16 * 4 in
        if ltb doff 20 || ltb (length d) doff then err bad_tcp_data_offset else tcp_fields d doff
