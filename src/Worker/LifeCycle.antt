-- ===== src/Worker/LifeCycle.antt =====
-- A task of internal/adapters/worker/worker_service.go from its container to the end of its command, over the
-- in-memory store of internal/adapters/store/store.go.
pub mod Found
pub mod Outputs
pub mod Whole
