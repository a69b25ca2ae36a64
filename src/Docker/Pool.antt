-- ===== src/Docker/Pool.antt =====
-- internal/adapters/resource/docker/docker_pool.go, without its statistics and ExecuteTask, and the health of
-- internal/core/domain/resource/resource.go: the pool of a manager and its workers on a docker host. The
-- clock and the answer of grpc.Dial are arguments; the logger is left out.
use devops_platform.Base.{
  ℕ, zero, suc, ◌+◌, Bool, true, false, String, concat, List, [], ◌∷◌, ◌++◌, Option, none, some,
  Map, lookup, ◌==◌, string_eq, if◌then◌else◌, Result, ok, err, panic, map_err, Exec, pure, ◌>>=◌,
  ◌>>◌,
}
use devops_platform.Docker.Texts.{decimal}
use devops_platform.Docker.Client.{Docker, Network, Inspection, Creation}

-- DockerHostPool; `has_client` says whether the worker client is set.
pub record Pool : Type 0 where
  pub id : String
  pub name : String
  pub endpoint : String
  pub network_id : String
  pub manager_id : String
  pub worker_ids : List String
  pub has_client : Bool

-- The pool with the docker host that its client speaks to.
pub record Site (D : Type 0) : Type 0 where
  pub pool : Pool
  pub host : D

pub record HealthStatus : Type 0 where
  pub is_healthy : Bool
  pub last_check : ℕ
  pub message : String

unfoldable pub new_health_status : ℕ → HealthStatus
new_health_status now = record { is_healthy = true; last_check = now; message = "" }

-- errors.Wrap
abbrev pub wrap : {A : Type 0} → String → Result A → Result A
wrap message = map_err (concat (concat message ": "))

abbrev pub labels : Pool → String → Map String String
labels p role = ("dev.rubentxu.devops-platform", "true") ∷ ("pool.id", p.id) ∷ ("role", role) ∷ []

abbrev pub manager_creation : Pool → Creation
manager_creation p = record {
  config = record {
    hostname = "";
    image = "devops-platform-manager:latest";
    env = "MANAGER_PORT=50051" ∷ [];
    exposed_ports = "50051/tcp" ∷ [];
    labels = labels p "manager";
  };
  host_config = some (record {
    port_bindings = ("50051/tcp", ("", "50051") ∷ []) ∷ [];
    memory = 0;
    cpu_count = 0;
    restart_policy = "unless-stopped";
  });
  networks = p.network_id ∷ [];
  name = concat "manager-" p.id;
}

abbrev pub worker_creation : Pool → String → ℕ → Creation
worker_creation p manager_ip i = record {
  config = record {
    hostname = "";
    image = "devops-platform-worker:latest";
    env = concat "MANAGER_HOST=" manager_ip ∷ "MANAGER_PORT=50051" ∷ [];
    exposed_ports = [];
    labels = labels p "worker";
  };
  host_config =
      some (record {
        port_bindings = [];
        memory = 0;
        cpu_count = 0;
        restart_policy = "unless-stopped";
      });
  networks = p.network_id ∷ [];
  name = concat "worker-" (concat p.id (concat "-" (decimal i)));
}

-- The network of this name, in a list.
abbrev pub network_named : String → List Network → Option String
network_named name [] = none
network_named name (n ∷ ns) = if n.name == name then some n.id else network_named name ns

module _ {D : Type 0} (docker : Docker D) where
  -- A method of the client that changes the host.
  abbrev pub on_host : {A : Type 0} → (D → Result A × D) → Exec (Site D) A
  on_host call s = let (r, d) = call s.host in (r, record s { host = d })

  abbrev pub set_network : String → Exec (Site D) (Unit {0})
  set_network id s = (ok tt, record s { pool = record (s.pool) { network_id = id } })

  abbrev pub network_of : Option String → String → Exec (Site D) (Unit {0})
  network_of (some id) name = set_network id
  network_of none name =
      (λ s.
        let (r, s') = on_host (docker.network_create name) s in
        (wrap "failed to create network" r, s'))
      >>= set_network

  unfoldable pub create_network : Exec (Site D) (Unit {0})
  create_network =
      (λ s. (wrap "failed to list networks" (docker.network_list s.host), s)) >>= λ networks s.
      let name = concat "devops-platform-" s.pool.id in
      network_of (network_named name networks) name s

  -- ContainerCreate and ContainerStart: a container that does not start stays.
  unfoldable pub create_and_start : String → Creation → Exec (Site D) String
  create_and_start role c =
      (λ s.
        let (r, s') = on_host (docker.create c) s in
        (wrap (concat "failed to create " (concat role " container")) r, s'))
      >>= λ id.
          (λ s.
            let (r, s') = on_host (docker.start id) s in
            (wrap (concat "failed to start " (concat role " container")) r, s'))
          >> pure id

  abbrev pub set_manager : String → Exec (Site D) (Unit {0})
  set_manager id s = (ok tt, record s { pool = record (s.pool) { manager_id = id } })

  unfoldable pub start_manager : Exec (Site D) (Unit {0})
  unfolding create_and_start
  start_manager s = (create_and_start "manager" (manager_creation s.pool) >>= set_manager) s

  -- NetworkSettings.Networks[p.networkID].IPAddress: a missing network is a nil pointer.
  abbrev pub address_in : String → Result Inspection → Result String
  address_in network (ok info) = elim (lookup network info.addresses) [
    | some address ↦ ok address
    | none ↦ panic
  ]
  address_in network (err e) = err (concat "failed to inspect manager container: " e)
  address_in network panic = panic

  abbrev pub manager_ip : Exec (Site D) String
  manager_ip s = (address_in s.pool.network_id (docker.inspect s.pool.manager_id s.host), s)

  abbrev pub add_worker : String → Exec (Site D) (Unit {0})
  add_worker id s =
      (ok tt, record s { pool = record (s.pool) { worker_ids = s.pool.worker_ids ++ id ∷ [] } })

  -- The rest of the loop: `left` workers, from number `i` on.
  unfoldable pub start_from : String → ℕ → ℕ → Exec (Site D) (Unit {0})
  unfolding create_and_start
  start_from ip zero i = pure tt
  start_from ip (suc left) i =
      (λ s. (create_and_start "worker" (worker_creation s.pool ip i) >>= add_worker) s)
      >> start_from ip left (i + 1)

  unfoldable pub start_workers : ℕ → Exec (Site D) (Unit {0})
  unfolding start_from
  start_workers count = manager_ip >>= λ ip. start_from ip count 0

  -- grpc.Dial with the manager's endpoint.
  abbrev pub dialled : Result (Unit {0}) → Exec (Site D) (Unit {0})
  dialled (ok u) s = (ok tt, record s { pool = record (s.pool) { has_client = true } })
  dialled (err e) s = (err (concat "failed to create gRPC connection: " e), s)
  dialled panic s = (panic, s)

  unfoldable pub init_worker_client : (String → Result (Unit {0})) → Exec (Site D) (Unit {0})
  init_worker_client dial = manager_ip >>= λ ip. dialled (dial (concat ip ":50051"))

  abbrev pub new_site : String → String → String → D → Site D
  new_site id name endpoint d = record {
    pool = record {
      id = id;
      name = name;
      endpoint = endpoint;
      network_id = "";
      manager_id = "";
      worker_ids = [];
      has_client = false;
    };
    host = d;
  }

  -- The steps of NewDockerHostPool; on an error the caller gets no pool, and the host stays as it is.
  unfoldable pub set_up : (String → Result (Unit {0})) → Exec (Site D) (Unit {0})
  unfolding create_network start_manager start_workers init_worker_client
  set_up dial = create_network >> (start_manager >> (start_workers 2 >> init_worker_client dial))

  -- Whether ContainerInspect answers, with a container that runs.
  abbrev pub runs : D → String → Bool
  runs d id = elim (docker.inspect id d) [ ok info ↦ info.is_running | _ ↦ false ]

  abbrev pub unhealthy : ℕ → String → HealthStatus
  unhealthy now message = record { is_healthy = false; last_check = now; message = message }

  unfoldable pub worker_health : ℕ → D → ℕ → List String → HealthStatus
  unfolding new_health_status
  worker_health now d i [] = new_health_status now
  worker_health now d i (id ∷ ids) =
      if runs d id
      then worker_health now d (i + 1) ids
      else unhealthy now (concat "Worker " (concat (decimal i) " is not running"))

  unfoldable pub get_health_status : ℕ → Site D → HealthStatus
  unfolding worker_health
  get_health_status now s =
      if runs s.host s.pool.manager_id
      then worker_health now s.host 0 s.pool.worker_ids
      else unhealthy now "Manager container is not running"

  -- Every error is logged.
  abbrev pub remove_all : List String → D → D
  remove_all [] d = d
  remove_all (id ∷ ids) d = remove_all ids (docker.remove id d).1

  unfoldable pub cleanup : Site D → Site D
  cleanup s =
      let emptied = (docker.remove s.pool.manager_id (remove_all s.pool.worker_ids s.host)).1 in
      record s { host = (docker.network_remove s.pool.network_id emptied).1 }

unfoldable pub get_id : Pool → String
get_id p = p.id
