-- ===== src/Packet/Parse.antt =====
-- `ParsedPacket` of crates/proxy-core/src/packet/mod.rs.
use proxy_switcher.Common.{
  ℕ, ◌+◌, Bool, false, not, ◌&&◌, ◌||◌, Option, none, some, [], ltb, ◌==◌, if◌then◌else◌, length,
}
use proxy_switcher.Common.Outcome.{Outcome, ok, ◌>>=◌, Bytes, slice_from}
use proxy_switcher.Packet.Ip.{PacketError, IpHeader, parse_ip}
use proxy_switcher.Packet.Tcp.{TcpHeader, parse_tcp}

pub record ParsedPacket : Type 0 where
  pub ip : IpHeader
  pub tcp : Option TcpHeader
  pub payload : Bytes

-- What follows the headers: nothing where they fill the packet.
unfoldable pub payload_from : Bytes → ℕ → Outcome PacketError Bytes
unfolding slice_from
payload_from d start = if ltb start (length d) then slice_from d start else ok []

unfoldable pub parse_with_tcp : Bytes → IpHeader → Outcome PacketError ParsedPacket
unfolding ◌>>=◌ parse_tcp slice_from payload_from
parse_with_tcp d ip = do
  tcp_data ← slice_from d ip.ihl
  tcp ← parse_tcp tcp_data
  payload ← payload_from d (ip.ihl + tcp.data_offset)
  ok (record { ip = ip; tcp = some tcp; payload = payload })

unfoldable pub parse_without_tcp : Bytes → IpHeader → Outcome PacketError ParsedPacket
unfolding ◌>>=◌ payload_from
parse_without_tcp d ip = do
  payload ← payload_from d ip.ihl
  ok (record { ip = ip; tcp = none; payload = payload })

-- `ParsedPacket::parse`
unfoldable pub parse : Bytes → Outcome PacketError ParsedPacket
unfolding ◌>>=◌ parse_ip parse_with_tcp parse_without_tcp
parse d = do
  ip ← parse_ip d
  if ip.protocol == 6 then parse_with_tcp d ip else parse_without_tcp d ip

abbrev pub tcp_is_syn : Option TcpHeader → Bool
tcp_is_syn none = false
tcp_is_syn (some t) = t.flags.syn && not t.flags.ack

abbrev pub tcp_is_fin : Option TcpHeader → Bool
tcp_is_fin none = false
tcp_is_fin (some t) = t.flags.fin || t.flags.rst

-- `ParsedPacket::is_tcp_syn` and `is_tcp_fin`
abbrev pub is_tcp_syn : ParsedPacket → Bool
is_tcp_syn p = tcp_is_syn p.tcp

abbrev pub is_tcp_fin : ParsedPacket → Bool
is_tcp_fin p = tcp_is_fin p.tcp
