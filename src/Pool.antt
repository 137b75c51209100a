-- ===== src/Pool.antt =====
-- crates/proxy-core/src/pool/mod.rs: the pool of proxies, behind one lock. Each operation takes the
-- lock for its whole body, so it is a function of the state under it; `now` is a reading of the
-- clock, in nanoseconds since 1970.
pub mod Types
pub mod Index
pub mod State
pub mod Discovery
pub mod Health
pub mod Select
pub mod Indexed
pub mod Operations
pub mod Ranking
pub mod Sorting
pub mod Kept
pub mod Capacity
pub mod Maximum
pub mod Chosen
pub mod Evicted
pub mod Held
pub mod Noted
pub mod Rotation
pub mod Merged
pub mod Exhausted
pub mod Statistics
pub mod Ranged
pub mod Tallied
pub mod Sums
pub mod Due
