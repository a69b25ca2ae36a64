-- ===== src/Docker/Creates.antt =====
-- What CreateContainerSandbox of internal/adapters/sandbox/docker_sandbox.go leaves on the docker host.
use devops_platform.Base.{
  ℕ, ℤ, ◌+◌, ◌-◌, ◌<◌, ◌≤◌, ◌≡◌, refl, ◌∙◌, ap, sym, true, false, ◌||◌, String, List, [], ◌∷◌, ◌==◌,
  string_eq, arith, Result, ok, err, panic, subst,
}
use devops_platform.Task.Defs.{SandboxConfig, new_task, Uuid}
use devops_platform.Docker.Texts.{
  decimal, has_suffix, trim_suffix, parse_int, parse_uint, digits_from,
}
use devops_platform.Docker.Amounts.{parse_memory, parse_docker_cpu}
use devops_platform.Docker.Addresses.{
  DockerSandbox, new_docker_sandbox, get_available_address, port_of, has_prefix,
}
use devops_platform.Docker.Ports.{port_of-get_available_address}
use devops_platform.Docker.Client.{Docker, Creation, IsDockerHost, is_in, without, without-new}
use devops_platform.Docker.Sandbox.{
  validate, creation_of, started, created, run_container, create_container_sandbox, port_network,
  no_network,
}

-- The configuration that NewTask makes of an image with a name is refused: its CPU "0.1" is no whole
-- number.
pub validate-new_task :
    (fresh : Uuid) (now : ℕ) (name image : String)
    → (image == "") ≡ false
    → validate (new_task fresh now name image).spec.sandbox_config
      ≡ err "invalid CPU configuration: failed to parse CPU: invalid syntax"
unfolding validate new_task parse_memory parse_docker_cpu parse_int parse_uint digits_from
    has_suffix trim_suffix
validate-new_task fresh now name image h = rw h refl

module _ {D : Type 0} (docker : Docker D) where
  -- Only the name, the image and whether the limits parse matter to docker: two configurations that are
  -- accepted make the same container, whatever memory, CPU and ports they ask for.
  pub run_container_unlimited :
      (a b : SandboxConfig) (d : D) (x y : ℤ × ℤ)
      → a.name ≡ b.name
      → a.image ≡ b.image
      → validate a ≡ ok x
      → validate b ≡ ok y
      → run_container docker a d ≡ run_container docker b d
  unfolding run_container
  run_container_unlimited a b d x y n i p q = rw (run_container, p, q, n, i) refl

  module _ {containers : D → List String} (laws : IsDockerHost docker containers) where
    -- A forced removal of a container that is there succeeds.
    abbrev pub Removes : Type 0
    Removes =
        (id : String) (d : D) → is_in id (containers d) ≡ true → (docker.remove id d).0 ≡ ok tt

    -- What a call leaves of the containers: one new container on success, with no identifier given back,
    -- and the same ones on an error.
    abbrev pub Leaves : List String → Result String × D → Type 0
    Leaves ids (ok answer, d) = (answer ≡ "") × (id : String) × (containers d ≡ id ∷ ids)
    Leaves ids (err e, d) = containers d ≡ ids
    Leaves ids (panic, d) = Unit

    started-Leaves :
        (id : String) (ids : List String) (r : Result (Unit {0}) × D)
        → Removes
        → is_in id ids ≡ false
        → containers r.1 ≡ id ∷ ids
        → Leaves ids (started docker id r)
    started-Leaves id ids (ok u, d) rm new e = (refl, id, e)
    started-Leaves id ids (err x, d) rm new e =
        laws.remove-takes id d (rm id d (rw (e, (string_eq.equal_iff id id).1 refl) refl))
        ∙ ap (without id) e
        ∙ rw ((string_eq.equal_iff id id).1 refl) (without-new id ids new)
    started-Leaves id ids (panic, d) rm new e = tt

    created-Leaves :
        (c : Creation) (d : D)
        → Removes
        → Leaves (containers d) (created docker (docker.create c d))
    created-Leaves c d rm = by_answer (docker.create c d) refl
      where
        by_answer :
            (r : Result String × D)
            → docker.create c d ≡ r
            → Leaves (containers d) (created docker r)
        by_answer (ok id, d') e =
            let (added, new) = laws.create-new c d (ap (λ r. r.0) e) in
            started-Leaves id (containers d) (docker.start id d') rm new
              (laws.start-keeps id d' ∙ ap (λ r. containers r.1) (sym e) ∙ added)
        by_answer (err x, d') e =
            ap (λ r. containers r.1) (sym e) ∙ laws.create-fails c d (ap (λ r. r.0) e)
        by_answer (panic, d') e = tt

    run_container-Leaves :
        (config : SandboxConfig) (d : D)
        → Removes
        → Leaves (containers d) (run_container docker config d)
    unfolding run_container
    run_container-Leaves config d rm = by_limits (validate config)
      where
        by_limits :
            (r : Result (ℤ × ℤ))
            → Leaves (containers d) (elim r as (λ _. Result String × D) [
              | ok limits ↦ created docker (docker.create (creation_of config) d)
              | err e ↦ (err e, d)
              | panic ↦ (panic, d)
            ])
        by_limits (ok limits) = created-Leaves (creation_of config) d rm
        by_limits (err e) = refl
        by_limits panic = tt

    -- On a docker host that keeps its containers and removes by force each one that is there,
    -- CreateContainerSandbox leaves one new container when it succeeds, and gives the empty text for it;
    -- when it fails, the containers of the host are the ones before.
    pub create_container_sandbox-Leaves :
        (s : DockerSandbox) (random : ℕ) (config : SandboxConfig) (d : D)
        → Removes
        → let (answer, d') = create_container_sandbox docker s random config d in
          Leaves (containers d) (answer.0, d')
    unfolding create_container_sandbox
    create_container_sandbox-Leaves s random config d rm =
        by_port (port_of (get_available_address s random))
      where
        by_port :
            (r : Result String)
            → let (answer, d') = elim r as (λ _. (Result String × SandboxConfig) × D) [
              | ok port ↦
                  let ready = record config { network = port_network port } in
                  let (r, d') = run_container docker ready d in ((r, ready), d')
              | err e ↦ ((err e, record config { network = no_network }), d)
              | panic ↦ ((panic, record config { network = no_network }), d)
            ] in
              Leaves (containers d) (answer.0, d')
        by_port (ok port) =
            run_container-Leaves (record config { network = port_network port }) d rm
        by_port (err e) = refl
        by_port panic = tt

  network-chosen :
      (s : DockerSandbox) (random : ℕ) (config : SandboxConfig) (d : D) (port : String)
      → port_of (get_available_address s random) ≡ ok port
      → (create_container_sandbox docker s random config d).0.1.network ≡ port_network port
  unfolding create_container_sandbox
  network-chosen s random config d port e = rw (create_container_sandbox, e) refl

  -- On a local docker daemon, and for a random number below the range of the ports, whatever network the
  -- configuration had, CreateContainerSandbox leaves it with one port, which lies from 30000 to 39999.
  pub create_container_sandbox-port :
      (host : String) (s : DockerSandbox) (random : ℕ) (config : SandboxConfig) (d : D)
      → (has_prefix "unix://" host || host == "") ≡ true
      → new_docker_sandbox (ok host) ≡ ok s
      → random < s.max_port - s.min_port
      → (port : ℕ) × (30000 ≤ port)
        × (port < 40000)
        × ((create_container_sandbox docker s random config d).0.1.network
            ≡ port_network (decimal port))
  unfolding new_docker_sandbox
  create_container_sandbox-port host s random config d local e b =
      let fresh : DockerSandbox = record {
        used_addresses = [];
        host = host;
        min_port = 30000;
        max_port = 40000;
      } in
      let made : fresh ≡ s = cc in
      let least : 30000 ≡ s.min_port = ap (λ s. s.min_port) made in
      let most : 40000 ≡ s.max_port = ap (λ s. s.max_port) made in
      (
        random + s.min_port,
        omega arith,
        omega arith,
        network-chosen s random config d (decimal (random + s.min_port)) (
            port_of-get_available_address s random (
              subst (λ h. (has_prefix "unix://" h || h == "") ≡ true) (ap (λ s. s.host) made)
                local)),
      )
