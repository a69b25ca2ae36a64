-- ===== src/Task.antt =====
-- internal/core/domain/task: the life cycle of a task, and the task record.
pub mod State
pub mod Graph
pub mod Defs
pub mod Updates
pub mod Paths
