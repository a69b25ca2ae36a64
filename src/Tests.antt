-- ===== src/Tests.antt =====
-- Runs of the modelled code on concrete inputs.
mod Fixtures
mod Tasks
mod Stores
mod Workers
mod LifeCycle
mod Dispatch
mod Schedulers
mod Commands
mod Managers
mod Sandboxes
mod Clusters
