-- ===== src/Dns.antt =====
-- The names of addresses: crates/proxy-core/src/dns/mod.rs.
pub mod Names
pub mod Response
pub mod Cache
pub mod Total
pub mod Loops
pub mod Plain
