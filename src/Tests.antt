-- ===== src/Tests.antt =====
-- The theorems at concrete inputs.
mod Breaker
mod Attempts
pub mod Responses
mod Sessions
mod Gates
mod Domains
pub mod Tuning
mod Connections
mod Clusters
mod Races
mod Orders
mod Clients
mod Stores
pub mod Upstreams
mod Answers
