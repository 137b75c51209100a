-- ===== src/Router.antt =====
-- The forwarding of the packets of the device: crates/proxy-core/src/router. A connection itself is
-- outside of the model: what it answers is an argument of the operation that asks it.
pub mod State
pub mod Outgoing
pub mod Flows
pub mod Routes
pub mod Guarded
pub mod Repeats
pub mod Stream
