-- ===== src/Daemon.antt =====
-- crates/proxy-daemon/src/policy.rs: the destinations that the policy sends into the device, and the
-- routes to them.
pub mod Routes
pub mod Covers
