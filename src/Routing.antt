-- ===== src/Routing.antt =====
-- crates/proxy-core/src/routing.rs: which destinations go through a proxy.
pub mod Local
pub mod Cidr
pub mod Domain
pub mod Policy
pub mod Parsed
pub mod Prefix
pub mod Subdomain
pub mod Decides
