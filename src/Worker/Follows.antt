-- ===== src/Worker/Follows.antt =====
-- What the methods of internal/adapters/worker/worker_service.go may do to the store.
pub mod Rules
pub mod Methods
pub mod Sandboxed
pub mod Output
