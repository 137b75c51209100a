-- ===== src/Connectors.antt =====
-- The clients of the proxy protocols: crates/proxy-core/src/proxy/connector. What they write to the
-- connection and how they read what comes back; the connection is the bytes of the server.
pub mod Base
pub mod Address
pub mod Handshakes
pub mod Sealed
pub mod Chunks
pub mod Accepted
pub mod Readable
pub mod Refused
pub mod Steady
pub mod Opened
pub mod Delivered
pub mod Keys
