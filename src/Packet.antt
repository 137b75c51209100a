-- ===== src/Packet.antt =====
-- crates/proxy-core/src/packet: IPv4, TCP and UDP packets read from and written to the device.
pub mod Ip
pub mod Tcp
pub mod Parse
pub mod Checksum
pub mod Build
pub mod Total
pub mod RoundTrip
pub mod Verifies
