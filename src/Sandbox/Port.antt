-- ===== src/Sandbox/Port.antt =====
-- internal/core/ports/container_sandbox_service.go: a sandbox service, as it answers in one run of its
-- container runtime.
use devops_platform.Base.{String, List, Result}
use devops_platform.Task.Defs.{SandboxConfig}

-- `create` gives the identifier of the new sandbox, and the configuration as it leaves it behind its
-- pointer, on an error too.
pub record SandboxService : Type 0 where
  pub create : SandboxConfig → Result String × SandboxConfig
  pub delete : String → Result (Unit {0})
  pub list : Result (List String)
