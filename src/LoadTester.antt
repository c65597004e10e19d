-- ===== src/LoadTester.antt =====
-- load_tester/main.go: the load generator's configuration, its mix of entities, its schedule and its
-- summary.
pub mod Settings
pub mod Mix
pub mod Turns
pub mod Summary
pub mod Schedule
pub mod Payload
pub mod Perform
mod Examples
