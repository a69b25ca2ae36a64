-- ===== src/Docker.antt =====
-- internal/adapters/sandbox/docker_sandbox.go and internal/adapters/resource/docker/docker_pool.go, over
-- the docker client.
pub mod Texts
pub mod Amounts
pub mod Addresses
pub mod Ports
pub mod Client
pub mod Sandbox
pub mod Creates
pub mod Service
pub mod Pool
pub mod Books
pub mod SetUp
pub mod Health
pub mod Tasks
pub mod Statistics
