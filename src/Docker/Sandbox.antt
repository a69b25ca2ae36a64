-- ===== src/Docker/Sandbox.antt =====
-- internal/adapters/sandbox/docker_sandbox.go, lines 111 to 238: the docker sandbox service, over the docker
-- client. The service sends neither the resources nor the ports that it works out: it creates the
-- container with no HostConfig.
use devops_platform.Base.{
  ℕ, ℤ, pos, String, concat, List, [], ◌∷◌, none, ◌==◌, string_eq, if◌then◌else◌, Result, ok, err,
  panic, bind, map_err,
}
use devops_platform.Task.Defs.{SandboxConfig, NetworkConfig}
use devops_platform.Docker.Texts.{decimal}
use devops_platform.Docker.Amounts.{parse_memory, parse_docker_cpu}
use devops_platform.Docker.Addresses.{
  DockerSandbox, get_available_address, release_address, port_of,
}
use devops_platform.Docker.Client.{Docker, Creation}

-- config.Network, emptied
abbrev pub no_network : NetworkConfig
no_network = record { exposed_ports = []; port_bindings = [] }

-- The network with the one port of the sandbox.
abbrev pub port_network : String → NetworkConfig
port_network port =
    let container_port = concat port "/tcp" in
    record { exposed_ports = container_port ∷ []; port_bindings = (container_port, port) ∷ [] }

-- The checks before the container is created.
abbrev pub memory_of : String → Result ℤ
memory_of memory =
    if memory == ""
    then ok (pos 0)
    else map_err (concat "invalid memory configuration: ") (parse_memory memory)

abbrev pub cpu_of : String → Result ℤ
cpu_of cpu =
    if cpu == ""
    then ok (pos 0)
    else map_err (concat "invalid CPU configuration: ") (parse_docker_cpu cpu)

unfoldable pub validate : SandboxConfig → Result (ℤ × ℤ)
validate config =
    if config.image == ""
    then err "image is required"
    else bind (memory_of config.resources.memory)
        λ memory. bind (cpu_of config.resources.cpu) λ cpu. ok (memory, cpu)

abbrev pub creation_of : SandboxConfig → Creation
creation_of config = record {
  config = record {
    hostname = config.name;
    image = config.image;
    env = [];
    exposed_ports = [];
    labels = [];
  };
  host_config = none;
  networks = [];
  name = config.name;
}

module _ {D : Type 0} (docker : Docker D) where
  -- A container that does not start is removed, whatever the removal answers.
  abbrev pub started : String → Result (Unit {0}) × D → Result String × D
  started id (ok u, d) = (ok "", d)
  started id (err e, d) = (err (concat "failed to start container: " e), (docker.remove id d).1)
  started id (panic, d) = (panic, d)

  abbrev pub created : Result String × D → Result String × D
  created (ok id, d) = started id (docker.start id d)
  created (err e, d) = (err (concat "failed to create container: " e), d)
  created (panic, d) = (panic, d)

  -- The identifier, which is always empty, and the host; the limits are worked out and dropped.
  unfoldable pub run_container : SandboxConfig → D → Result String × D
  unfolding validate
  run_container config d = elim (validate config) [
    | ok limits ↦ created (docker.create (creation_of config) d)
    | err e ↦ (err e, d)
    | panic ↦ (panic, d)
  ]

  -- CreateContainerSandbox: the network of the configuration is emptied, and set once the port is known.
  unfoldable pub create_container_sandbox :
      DockerSandbox → ℕ → SandboxConfig → D → (Result String × SandboxConfig) × D
  unfolding run_container
  create_container_sandbox s random config d = elim (port_of (get_available_address s random)) [
    | ok port ↦
        let ready = record config { network = port_network port } in
        let (r, d') = run_container ready d in ((r, ready), d')
    | err e ↦ ((err e, record config { network = no_network }), d)
    | panic ↦ ((panic, record config { network = no_network }), d)
  ]

  -- The addresses of all the bindings, released in turn.
  abbrev pub release_all : List String → DockerSandbox → DockerSandbox
  unfolding release_address
  release_all [] s = s
  release_all (port ∷ ports) s =
      release_all ports (release_address (concat s.host (concat ":" port)) s)

  unfoldable pub delete_container_sandbox :
      DockerSandbox → String → D → Result (Unit {0}) × (DockerSandbox × D)
  delete_container_sandbox s id d = elim (docker.inspect id d) [
    | ok info ↦ let (r, d') = docker.remove id d in (r, (release_all info.host_ports s, d'))
    | err e ↦ (err (concat "failed to inspect container: " e), (s, d))
    | panic ↦ (panic, (s, d))
  ]

  -- The first public port of each container: a container with no port is an index out of range.
  abbrev pub listed : List (List ℕ) → Result (List String)
  listed [] = ok []
  listed ([] ∷ rest) = panic
  listed ((port ∷ ports) ∷ rest) =
      bind (listed rest)
        λ addresses. ok (concat "localhost:%!s(uint16=" (concat (decimal port) ")") ∷ addresses)

  unfoldable pub list_container_sandboxes : D → Result (List String)
  list_container_sandboxes d = bind (docker.list d) listed
