-- ===== src/Manager.antt =====
-- internal/adapters/manager/manager.go: the manager that sends tasks to the workers.
pub mod Defs
pub mod Selection
pub mod Sending
pub mod Polling
pub mod Health
pub mod Assigned
pub mod Orderly
pub mod Spares
pub mod Runs
pub mod Named
pub mod Known
pub mod Talks
pub mod Restarts
pub mod Turns
pub mod Outcomes
pub mod Requeued
pub mod Sharing
pub mod Queue
pub mod Reports
