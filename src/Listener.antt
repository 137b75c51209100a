-- ===== src/Listener.antt =====
-- The local proxy: crates/proxy-core/src/local_proxy.rs. The tables of its sessions, what its
-- rotations choose, the tunnel that moves on when a proxy is dead, and the requests of its clients.
pub mod State
pub mod Sessions
pub mod Tunnel
pub mod Allowed
pub mod Apart
pub mod Rotated
pub mod Attempts
pub mod Operations
pub mod Tables
pub mod History
pub mod Base64
pub mod Decoded
pub mod Request
pub mod Serve
pub mod Authorised
