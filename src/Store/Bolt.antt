-- ===== src/Store/Bolt.antt =====
-- internal/adapters/store/store.go, lines 111 to 370: the persistent task and event stores. The bolt
-- database and the JSON codec are third-party code: `Driver` and `Codec` are their interfaces.
pub mod Driver
pub mod Tasks
pub mod Events
pub mod Laws
