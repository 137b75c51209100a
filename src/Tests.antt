-- ===== src/Tests.antt =====
-- The theorems at concrete inputs, and runs of the definitions.
mod Values
mod Packets
mod Routes
mod Pools
mod Names
mod Flows
mod Countries
mod Listeners
mod Proxies
mod Probes
mod Destinations
