-- ===== src/Scheduler.antt =====
-- internal/adapters/scheduler, internal/adapters/node and internal/adapters/stats: the choice of a node.
pub mod Floats
pub mod Stats
pub mod Node
pub mod Pick
pub mod RoundRobin
pub mod Costs
pub mod Candidates
pub mod Names
pub mod Usage
pub mod Minimal
pub mod Rotation
pub mod Reading
