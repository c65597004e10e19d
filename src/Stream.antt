-- ===== src/Stream.antt =====
-- stream_processor/cmd/stream-processor/main.go: the command that joins ingestion, the windows and
-- the sinks.
pub mod Settings
pub mod Start
pub mod Secured
pub mod Production
pub mod Handler
pub mod Delivered
pub mod Served
pub mod Decided
mod Examples
