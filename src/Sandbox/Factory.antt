-- ===== src/Sandbox/Factory.antt =====
-- internal/adapters/sandbox/factory.go, hyperv.go and kubernetes_sandbox.go: the choice of a service.
use devops_platform.Base.{
  ◌≡◌, Bool, String, concat, Result, ok, err, ◌==◌, string_eq, if◌then◌else◌, arith,
}
use devops_platform.Task.Defs.{
  SandboxConfig, SandboxType, sandbox_type_docker, sandbox_type_kubernetes, sandbox_type_hyper_v,
}
use devops_platform.Sandbox.Port.{SandboxService}

pub record KubernetesConfig : Type 0 where
  pub namespace : String
  pub proxy : String
  pub skip_ssl : Bool

pub record HyperVConfig : Type 0 where
  pub vm_image_path : String

-- What the `config interface{}` parameter holds.
pub data Config : Type 0 where
  sandbox : SandboxConfig → Config
  kubernetes : KubernetesConfig → Config
  hyper_v : HyperVConfig → Config
  other : Config

-- The constructors of the three services, which speak to their runtimes.
pub record Constructors : Type 0 where
  pub new_docker : Result SandboxService
  pub new_kubernetes : KubernetesConfig → Result SandboxService
  pub new_hyper_v : HyperVConfig → Result SandboxService

abbrev as_kubernetes : Config → (KubernetesConfig → Result SandboxService) → Result SandboxService
as_kubernetes (kubernetes k) f = f k
as_kubernetes _ f = err "invalid Kubernetes config"

abbrev as_hyper_v : Config → (HyperVConfig → Result SandboxService) → Result SandboxService
as_hyper_v (hyper_v h) f = f h
as_hyper_v _ f = err "invalid Hyper-V config"

unfoldable pub new_container_sandbox_service :
    Constructors → SandboxType → Config → Result SandboxService
new_container_sandbox_service c kind config =
    if kind == sandbox_type_docker
    then c.new_docker
    else if kind == sandbox_type_kubernetes
    then as_kubernetes config c.new_kubernetes
    else if kind == sandbox_type_hyper_v
    then as_hyper_v config c.new_hyper_v
    else err (concat "unsupported sandbox type: " kind)

-- With the configuration of a task, as the worker service passes it, only a docker service is ever
-- made: every other type is an error.
pub task_config_needs_docker :
    (c : Constructors) (kind : SandboxType) (config : SandboxConfig) {s : SandboxService}
    → new_container_sandbox_service c kind (sandbox config) ≡ ok s
    → (kind ≡ sandbox_type_docker) × (c.new_docker ≡ ok s)
unfolding new_container_sandbox_service
task_config_needs_docker c kind config h = ground (arith, string_eq.equal_iff kind "docker")
