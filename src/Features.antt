-- ===== src/Features.antt =====
-- The features between the planes: stream_processor/aggregations/materialize.go writes them, and
-- serving_plane/feature_store/store.go reads them.
pub mod Vector
pub mod Materialize
pub mod Store
pub mod Redis
pub mod Probe
pub mod RoundTrip
pub mod Accepted
pub mod Ticks
mod Examples
