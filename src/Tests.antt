-- ===== src/Tests.antt =====
-- Concrete inputs: a platform held in memory, and each theorem applied to it.
pub mod Memory
pub mod Fixtures
pub mod Web
mod Limits
mod Purchases
mod Sequences
mod People
mod Lookups
mod Requests
mod Replies
mod Paths
mod Openings
mod Concurrency
mod Process
mod Sales
