-- ===== src/Worker/Dispatch.antt =====
-- internal/adapters/worker/worker_service.go, lines 83 to 154: AddTask, the queue and the dispatcher, as one
-- step function over the moves that the scheduler of goroutines may choose.
pub mod Defs
pub mod Slots
pub mod Conservation
pub mod Progress
pub mod Order
pub mod Abstract
pub mod Simulation
