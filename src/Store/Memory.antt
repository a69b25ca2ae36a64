-- ===== src/Store/Memory.antt =====
-- internal/adapters/store/store.go, lines 13 to 107: the in-memory stores. Each keeps a map; a range
-- over it reads the entries in an order that the runtime chooses, the parameter `order`.
pub mod Found
pub mod Tasks
pub mod Events
pub mod Laws
