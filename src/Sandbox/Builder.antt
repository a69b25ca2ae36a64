-- ===== src/Sandbox/Builder.antt =====
-- The SandboxConfigBuilder of internal/core/domain/sandbox_config.go, over the configuration that it holds.
-- A method's receiver, which it returns, is its last argument.
use devops_platform.Base.{
  ◌≡◌, String, List, [], ◌∷◌, some, lookup, insert, lookup-insert, ◌==◌, string_eq, if◌then◌else◌,
}
use devops_platform.Task.Defs.{SandboxConfig, SandboxType, zero_config}

abbrev pub Builder : Type 0
Builder = SandboxConfig

unfoldable pub new_sandbox_config_builder : Builder
new_sandbox_config_builder = zero_config

unfoldable pub with_sandbox_id : String → Builder → Builder
with_sandbox_id id b = record b { sanbox_id = id }

unfoldable pub with_image : String → Builder → Builder
with_image image b = record b { image = image }

unfoldable pub with_env_var : String → String → Builder → Builder
with_env_var key value b = record b { env_vars = insert key value b.env_vars }

unfoldable pub with_metadata : String → String → Builder → Builder
with_metadata key value b = record b { metadata = insert key value b.metadata }

unfoldable pub with_sandbox_type : SandboxType → Builder → Builder
with_sandbox_type kind b = record b { sandbox_type = kind }

unfoldable pub with_name : String → Builder → Builder
with_name name b = record b { name = name }

unfoldable pub with_resource_requests : String → String → String → Builder → Builder
with_resource_requests cpu memory disk b = record b {
  resources = record { cpu = cpu; memory = memory; disk = disk };
}

-- An entry of a set.
abbrev pub with_entry : String → List String → List String
with_entry port [] = port ∷ []
with_entry port (p ∷ ps) = if p == port then p ∷ ps else p ∷ with_entry port ps

unfoldable pub with_exposed_port : String → Builder → Builder
with_exposed_port port b = record b {
  network = record (b.network) { exposed_ports = with_entry port b.network.exposed_ports };
}

unfoldable pub with_port_binding : String → String → Builder → Builder
with_port_binding host_port container_port b = record b {
  network = record (b.network) {
    port_bindings = insert container_port host_port b.network.port_bindings;
  };
}

unfoldable pub with_volume : String → String → Builder → Builder
with_volume host_path container_path b = record b {
  storage = record (b.storage) { volumes = insert host_path container_path b.storage.volumes };
}

unfoldable pub with_working_dir : String → Builder → Builder
with_working_dir working_dir b = record b { working_dir = working_dir }

unfoldable pub build : Builder → SandboxConfig
build b = b

-- The last binding of a container's port is the one that is built, and it keeps those of other ports.
pub build-with_port_binding :
    (host_port container_port port : String) (b : Builder)
    → lookup port (build (with_port_binding host_port container_port b)).network.port_bindings ≡ (
        if container_port == port
        then some host_port
        else lookup port (build b).network.port_bindings)
unfolding build with_port_binding
build-with_port_binding host_port container_port port b =
    lookup-insert container_port port host_port b.network.port_bindings
