-- ===== src/Tests/Sandboxes.antt =====
-- A docker host that keeps the identifiers of its containers, a new one longer than all.
use Prim.Native.String.{len}
use text.Mathlib.TextPositions.{len-append}
use devops_platform.Base.{
  subst, ℕ, pos, ◌*◌, ◌^◌, ◌<◌, ◌≤◌, ◌≡◌, ◌↔◌, refl, ap, true, false, String, concat, List, [], ◌∷◌,
  Map, lookup, insert, ◌==◌, string_eq, ok, err, Result, arith, inl, inr, Bool-cases, ◌>>=◌,
}
use devops_platform.Task.State.{
  pending, valid_state_transition, state_transition_map, contains, state_eq,
}
use devops_platform.Task.Defs.{Task, SandboxConfig, zero_config, with_resources}
use devops_platform.Store.Memory.Tasks
use devops_platform.Store.Memory.Laws.{memory_laws}
use devops_platform.Sandbox.Factory.{Constructors, new_container_sandbox_service}
use devops_platform.Worker.Create.{create_container, sandboxed}
use devops_platform.Worker.Results.{in_creating, in_container}
use devops_platform.Docker.Texts.{
  decimal, digits, digits_from, parse_int, parse_uint, has_suffix, trim_suffix,
}
use devops_platform.Docker.Amounts.{parse_memory, parse_docker_cpu, parse_memory-exact_iff}
use devops_platform.Docker.Addresses.{
  DockerSandbox, new_docker_sandbox, get_available_address, port_of, split_host_port, split_last,
  strip, has_prefix, trim_prefix, ported, before,
}
use devops_platform.Docker.Client.{Docker, IsDockerHost, is_in, without}
use devops_platform.Docker.Sandbox.{validate, run_container, create_container_sandbox, port_network}
use devops_platform.Docker.Creates.{
  create_container_sandbox-Leaves, create_container_sandbox-port, Leaves,
}
use devops_platform.Docker.Service.{docker_service, docker_task_unfound}
use devops_platform.Docker.Pool.{
  Site, set_up, create_network, start_manager, start_workers, start_from, create_and_start,
  init_worker_client, new_site, cleanup,
}
use devops_platform.Docker.SetUp.{cleanup-set_up}
use devops_platform.Tests.Fixtures.{task_in, id_string, store, service_with}

abbrev Host : Type 0
Host = List String

abbrev glue : Host → String
glue [] = ""
glue (id ∷ ids) = concat id (glue ids)

abbrev fresh : Host → String
fresh ids = concat "c" (glue ids)

abbrev host : Docker Host
host = record {
  create = λ c ids. (ok (fresh ids), fresh ids ∷ ids);
  start = λ id ids. (ok tt, ids);
  remove = λ id ids. (ok tt, without id ids);
  inspect = λ id ids.
      ok (record {
        is_running = is_in id ids;
        addresses = ("net", "10.0.0.2") ∷ [];
        host_ports = [];
      });
  list = λ ids. ok [];
  network_list = λ ids. ok [];
  network_create = λ name ids. (ok "net", ids);
  network_remove = λ id ids. (ok tt, ids);
}

len-glue : (x : String) (ids : Host) → is_in x ids ≡ true → len x ≤ len (glue ids)
len-glue x [] h = absurd (ground arith)
len-glue x (id ∷ ids) h = elim (Bool-cases (id == x)) [
  | inl b ↦
      let same : len id ≡ len x = ap len ((string_eq.equal_iff id x).0 b) in
      omega (arith, same, len-append id (glue ids))
  | inr b ↦ omega (arith, len-glue x ids (ground arith), len-append id (glue ids))
]

fresh_new : (ids : Host) → is_in (fresh ids) ids ≡ false
fresh_new ids = elim (Bool-cases (is_in (fresh ids) ids)) [
  | inl b ↦ absurd (omega (arith, len-glue (fresh ids) ids b, len-append "c" (glue ids)))
  | inr b ↦ b
]

host-IsDockerHost : IsDockerHost host (λ ids. ids)
host-IsDockerHost = record {
  create-new = λ c ids e.
      let same : fresh ids ≡ _ = cc in
      (ap (λ id. id ∷ ids) same, subst (λ id. is_in id ids ≡ false) same (fresh_new ids));
  create-fails = λ c ids e. absurd cc;
  start-keeps = λ id ids. refl;
  remove-takes = λ id ids e. refl;
  network_create-keeps = λ name ids. refl;
  network_remove-keeps = λ id ids. refl;
}

abbrev small : SandboxConfig
small = record zero_config {
  name = "a";
  image = "golang";
  resources = record { cpu = "1"; memory = "256MB"; disk = "" };
}

abbrev service : DockerSandbox
service = record { used_addresses = []; host = ""; min_port = 30000; max_port = 40000 }

parse_memory-exact_iff_example :
    (parse_memory (concat (decimal 4) "GB") ≡ ok (pos (4 * 2 ^ 30))) ↔ (4 < 2 ^ 33)
parse_memory-exact_iff_example = parse_memory-exact_iff 4 (omega arith)

create_container_sandbox-Leaves_example :
    let (answer, ids) = create_container_sandbox host service 7 small ("b" ∷ []) in
    Leaves host host-IsDockerHost ("b" ∷ []) (answer.0, ids)
create_container_sandbox-Leaves_example =
    create_container_sandbox-Leaves host host-IsDockerHost service 7 small ("b" ∷ [])
      (λ id ids i. refl)

create_container_sandbox-port_example :
    (port : ℕ) × (30000 ≤ port)
    × (port < 40000)
    × ((create_container_sandbox host service 7 small []).0.1.network ≡ port_network (decimal port))
unfolding new_docker_sandbox has_prefix strip
create_container_sandbox-port_example =
    create_container_sandbox-port host "" service 7 small [] refl refl (omega arith)

abbrev waiting : Task
waiting = with_resources "1" "256MB" "" (task_in pending)

abbrev docker_only : Constructors
docker_only = record {
  new_docker = ok (docker_service host service 7 []);
  new_kubernetes = λ k. err "no cluster";
  new_hyper_v = λ h. err "no host";
}

abbrev once : Map String Task
unfolding insert with_resources
once = insert "1" (in_creating waiting) (service_with waiting).db

abbrev twice : Map String Task
unfolding insert with_resources create_container_sandbox
twice =
    insert "1"
      (in_container "" (sandboxed (docker_service host service 7 []) (in_creating waiting))) once

docker_task_unfound_example :
    (create_container store id_string docker_only waiting (service_with waiting)).0 ≡ ok tt
unfolding with_resources Tasks.put insert valid_state_transition state_transition_map contains
    new_container_sandbox_service create_container_sandbox run_container validate port_of
    get_available_address split_host_port split_last ported strip has_prefix trim_prefix before
    decimal digits parse_memory parse_docker_cpu parse_int parse_uint digits_from has_suffix
    trim_suffix
docker_task_unfound_example =
    (docker_task_unfound host (memory_laws λ m. m) id_string docker_only waiting
      (service_with waiting) service 7 [] "" once twice (tt, tt) refl refl refl refl refl).0

abbrev endpoint : String
endpoint = "unix:///var/run/docker.sock"

abbrev reach : String → Result (Unit {0})
reach address = ok tt

abbrev ready : Site Host
ready = (set_up host reach (new_site host "p" "pool" endpoint ("b" ∷ []))).1

cleanup-set_up_example : (cleanup host ready).host ≡ "b" ∷ []
unfolding set_up create_network start_manager start_workers start_from create_and_start
    init_worker_client decimal digits lookup ◌>>=◌
cleanup-set_up_example =
    cleanup-set_up host host-IsDockerHost reach "p" "pool" endpoint ("b" ∷ []) {s = ready}
      (λ id ids i. refl) refl
