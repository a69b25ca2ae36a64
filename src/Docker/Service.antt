-- ===== src/Docker/Service.antt =====
-- The docker sandbox service behind the worker service: internal/adapters/sandbox/docker_sandbox.go as the
-- ContainerSandboxService of internal/adapters/worker/worker_service.go.
use devops_platform.Base.{
  ℤ, ℕ, ◌≡◌, refl, ◌∙◌, ap, true, false, String, [], ◌∷◌, none, ◌==◌, string_eq, arith, beq_refl,
  Result, ok, err, panic,
}
use devops_platform.Task.State.{creating, valid_state_transition}
use devops_platform.Task.Defs.{Task, SandboxConfig, Uuid}
use devops_platform.Store.Port.{Store, IsTaskStore, task}
use devops_platform.Sandbox.Port.{SandboxService}
use devops_platform.Sandbox.Factory.{Constructors}
use devops_platform.Worker.Defs.{WorkerService}
use devops_platform.Worker.Create.{sandboxed, sandbox_service, create_container}
use devops_platform.Worker.Results.{create_container_made, in_creating, in_container}
use devops_platform.Worker.Running.{find_by_container}
use devops_platform.Docker.Addresses.{DockerSandbox, get_available_address, port_of}
use devops_platform.Docker.Client.{Docker}
use devops_platform.Docker.Sandbox.{
  started, created, run_container, validate, creation_of, port_network, no_network,
  create_container_sandbox, delete_container_sandbox, list_container_sandboxes,
}

unfound :
    (t : Task)
    → t.status.container_id ≡ ""
    → (worker : String) → (worker == "") ≡ false
    → find_by_container worker (t ∷ []) ≡ none
unfolding find_by_container
unfound t empty worker n =
    let other : (t.status.container_id == worker) ≡ false =
      ground
        (arith, string_eq.equal_iff t.status.container_id worker, string_eq.equal_iff worker "") in
    rw other refl

module _ {D : Type 0} (docker : Docker D) where
  -- The service as it answers on this host, with the random number that it draws.
  abbrev pub docker_service : DockerSandbox → ℕ → D → SandboxService
  docker_service s random d = record {
    create = λ config. (create_container_sandbox docker s random config d).0;
    delete = λ id. (delete_container_sandbox docker s id d).0;
    list = list_container_sandboxes docker d;
  }

  started-empty :
      (id : String) (r : Result (Unit {0}) × D) (answer : String)
      → (started docker id r).0 ≡ ok answer
      → answer ≡ ""
  started-empty id (ok u, d) answer h = cc
  started-empty id (err e, d) answer h = cc
  started-empty id (panic, d) answer h = cc

  created-empty :
      (r : Result String × D) (answer : String) → (created docker r).0 ≡ ok answer → answer ≡ ""
  created-empty (ok id, d) answer h = started-empty id (docker.start id d) answer h
  created-empty (err e, d) answer h = cc
  created-empty (panic, d) answer h = cc

  run_container-empty :
      (config : SandboxConfig) (d : D) (answer : String)
      → (run_container docker config d).0 ≡ ok answer
      → answer ≡ ""
  unfolding run_container
  run_container-empty config d answer = by_limits (validate config)
    where
      by_limits :
          (r : Result (ℤ × ℤ))
          → (elim r as (λ _. Result String × D) [
            | ok limits ↦ created docker (docker.create (creation_of config) d)
            | err e ↦ (err e, d)
            | panic ↦ (panic, d)
          ]).0
            ≡ ok answer
          → answer ≡ ""
      by_limits (ok limits) h = created-empty (docker.create (creation_of config) d) answer h
      by_limits (err e) h = cc
      by_limits panic h = cc

  -- Whatever docker answers, a sandbox that is made has the empty identifier.
  create-empty :
      (s : DockerSandbox) (random : ℕ) (config : SandboxConfig) (d : D) (answer : String)
      → ((docker_service s random d).create config).0 ≡ ok answer
      → answer ≡ ""
  unfolding create_container_sandbox
  create-empty s random config d answer = by_port (port_of (get_available_address s random))
    where
      by_port :
          (r : Result String)
          → (elim r as (λ _. (Result String × SandboxConfig) × D) [
            | ok port ↦
                let ready = record config { network = port_network port } in
                let (r, d') = run_container docker ready d in ((r, ready), d')
            | err e ↦ ((err e, record config { network = no_network }), d)
            | panic ↦ ((panic, record config { network = no_network }), d)
          ]).0.0
            ≡ ok answer
          → answer ≡ ""
      by_port (ok port) h =
          run_container-empty (record config { network = port_network port }) d answer h
      by_port (err e) h = cc
      by_port panic h = cc

  module _ {S : Type 0} {store : Store S} {IsSound : S → Type 0} {init : S}
      (laws : IsTaskStore store IsSound init) (id_string : Uuid → String)
      (constructors : Constructors) where
    -- Where createContainer makes its sandbox by docker and a task store that meets the laws accepts the
    -- task twice, it succeeds, and the stored task has the container "": among it alone RegisterWorker
    -- finds no task for a worker whose identifier is not empty.
    pub docker_task_unfound :
        (t : Task) (w : WorkerService S) (s : DockerSandbox) (random : ℕ) (d : D) (id : String)
        (s1 s2 : S)
        → IsSound w.db
        → valid_state_transition t.status.state creating ≡ true
        → store.put (id_string t.metadata.id) (task (in_creating t)) w.db ≡ ok s1
        → sandbox_service store id_string constructors (in_creating t)
          ≡ ok (docker_service s random d)
        → (create_container_sandbox docker s random t.spec.sandbox_config d).0.0 ≡ ok id
        → store.put
            (id_string t.metadata.id)
            (task (in_container id (sandboxed (docker_service s random d) (in_creating t))))
            s1
          ≡ ok s2
        → let (r, w') = create_container store id_string constructors t w in
          (r ≡ ok tt)
          × (t' : Task) × (store.get (id_string t.metadata.id) w'.db ≡ ok (task t'))
          × (t'.status.container_id ≡ "")
          × ((worker : String) → (worker == "") ≡ false → find_by_container worker (t' ∷ []) ≡ none)
    docker_task_unfound t w s random d id s1 s2 h v p1 f c p2 =
        let key = id_string t.metadata.id in
        let t' = in_container id (sandboxed (docker_service s random d) (in_creating t)) in
        let (r, e) =
          create_container_made store id_string constructors t w (docker_service s random d) id s1
            s2 v p1 f c p2 in
        let stored : store.get key s2 ≡ ok (task t') =
          laws.get-put key key t' s1 (laws.put-IsSound key (in_creating t) w.db h p1) p2
          ∙ rw (beq_refl key) refl in
        let empty : id ≡ "" = create-empty s random t.spec.sandbox_config d id c in
        (r, t', ap (store.get key) e ∙ stored, empty, unfound t' empty)
