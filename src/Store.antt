-- ===== src/Store.antt =====
-- internal/adapters/store, behind the interface of internal/core/ports/store.go.
pub mod Port
pub mod Memory
pub mod Bolt
pub mod Factory
pub mod Replay
pub mod Refines
pub mod Agree
