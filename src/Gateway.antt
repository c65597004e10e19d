-- ===== src/Gateway.antt =====
-- serving_plane/gateway/gateway.go: the authenticated scoring endpoint.
pub mod Request
pub mod Identity
pub mod Handler
pub mod Operations
pub mod Counters
pub mod FailClosed
pub mod Denial
mod Examples
