-- ===== src/Tests.antt =====
-- Tests: a small database, and the theorems applied to requests on it.
pub mod World
pub mod Scheduling
pub mod Reports
pub mod Registry
pub mod Retries
pub mod Maintenance
pub mod Broker
