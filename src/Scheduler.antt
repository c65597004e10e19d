-- ===== src/Scheduler.antt =====
-- serving_plane/scheduler/scheduler.go: bounded, deadline-aware continuous batching.
pub mod Metrics
pub mod State
pub mod Race
pub mod Once
pub mod Progress
pub mod Dispatch
pub mod Replies
pub mod Calls
pub mod Delivery
pub mod Collect
mod Examples
