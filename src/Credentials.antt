-- ===== src/Credentials.antt =====
-- The policies and the clients' names: crates/proxy-core/src/credentials.rs.
pub mod Policy
pub mod Names
