-- ===== src/Ingestion.antt =====
-- stream_processor/ingestion/ingestion.go: the consumers of financial events.
pub mod Event
pub mod Backoff
pub mod Metadata
pub mod Kafka
pub mod Commits
pub mod Attempts
pub mod Memory
pub mod Config
pub mod Dialer
pub mod Secure
mod Examples
