-- ===== src/Sandbox.antt =====
-- internal/adapters/sandbox: the services that create and delete the containers of tasks.
pub mod Port
pub mod Factory
pub mod Builder
pub mod Kubernetes
pub mod HyperV
