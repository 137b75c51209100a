-- ===== src/Health.antt =====
-- The probes of crates/proxy-core/src/health/mod.rs. What the network answers is an argument.
pub mod Reported
pub mod Probe
pub mod Proven
pub mod Conclusive
pub mod Enough
