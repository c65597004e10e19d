-- ===== src/Worker.antt =====
-- serving_plane/worker: inference workers, their validation and the pool of them.
pub mod Types
pub mod Validate
pub mod Labels
pub mod Sound
pub mod Messages
pub mod Rpc
pub mod Credentials
pub mod Client
pub mod Hop
pub mod Pool
pub mod Failover
pub mod Seats
pub mod Scorer
pub mod Scored
pub mod Ranked
mod Examples
mod ScorerExamples
