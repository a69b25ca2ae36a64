-- ===== src/Worker.antt =====
-- internal/adapters/worker/worker_service.go: the service that runs tasks in sandboxes.
pub mod Defs
pub mod Create
pub mod Running
pub mod Stopping
pub mod Follows
pub mod Results
pub mod Dispatch
pub mod Output
pub mod Registered
pub mod LifeCycle
pub mod Observers
