-- ===== src/Serving.antt =====
-- serving_plane/cmd: the commands of the gateway and of the worker, what they take from their
-- environment and how they come up.
pub mod Probe
pub mod Gateway
pub mod Start
pub mod Parts
pub mod Guarded
pub mod Worker
pub mod Operations
pub mod Mutual
pub mod Measures
mod Examples
