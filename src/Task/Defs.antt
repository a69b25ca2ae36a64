-- ===== src/Task/Defs.antt =====
-- internal/core/domain/task/task.go and internal/core/domain/sandbox_config.go: the task record, its
-- constructor and its methods. An instant is a number of nanoseconds, a duration an integer of them;
-- the clock and the random identifiers are arguments.
use devops_platform.Base.{
  ℕ, ℤ, pos, sub_ℕ, is_positive, ltb, Bool, not, ◌&&◌, ◌||◌, String, List, [], Option, none, some,
  Map, ◌==◌, nat_eq, string_eq, length,
}
use devops_platform.Task.State.{State, pending, running, completed, failed, state_eq}

-- `type SandboxType string`, with its three constants.
abbrev pub SandboxType : Type 0
SandboxType = String

abbrev pub sandbox_type_docker : SandboxType
sandbox_type_docker = "docker"

abbrev pub sandbox_type_kubernetes : SandboxType
sandbox_type_kubernetes = "kubernetes"

abbrev pub sandbox_type_hyper_v : SandboxType
sandbox_type_hyper_v = "hyperv"

pub record ResourceRequests : Type 0 where
  pub cpu : String
  pub memory : String
  pub disk : String

pub record NetworkConfig : Type 0 where
  pub exposed_ports : List String
  pub port_bindings : Map String String

pub record StorageConfig : Type 0 where
  pub volumes : Map String String

pub record SandboxConfig : Type 0 where
  pub sanbox_id : String
  pub name : String
  pub image : String
  pub env_vars : Map String String
  pub metadata : Map String String
  pub sandbox_type : SandboxType
  pub resources : ResourceRequests
  pub network : NetworkConfig
  pub storage : StorageConfig
  pub working_dir : String

-- uuid.UUID, its 16 bytes read as a number; uuid.Nil is the zero value.
abbrev pub Uuid : Type 0
Uuid = ℕ

abbrev pub uuid_nil : Uuid
uuid_nil = 0

pub record TaskSpec : Type 0 where
  pub sandbox_config : SandboxConfig
  pub command : List String
  pub timeout : ℤ

pub record TaskStatus : Type 0 where
  pub state : State
  pub container_id : String
  pub start_time : Option ℕ
  pub finish_time : Option ℕ
  pub message : String
  pub reason : String
  pub exit_code : Option ℤ
  pub restart_count : ℕ
  pub last_restart_time : Option ℕ

pub record TaskMetadata : Type 0 where
  pub id : Uuid
  pub name : String
  pub namespace : String
  pub labels : Map String String
  pub created_at : ℕ

pub record Task : Type 0 where
  pub metadata : TaskMetadata
  pub spec : TaskSpec
  pub status : TaskStatus

pub record TaskEvent : Type 0 where
  pub id : Uuid
  pub state : State
  pub timestamp : ℕ
  pub task : Task

-- The zero value of each struct.
abbrev pub zero_status : TaskStatus
zero_status = record {
  state = pending;
  container_id = "";
  start_time = none;
  finish_time = none;
  message = "";
  reason = "";
  exit_code = none;
  restart_count = 0;
  last_restart_time = none;
}

abbrev pub zero_config : SandboxConfig
zero_config = record {
  sanbox_id = "";
  name = "";
  image = "";
  env_vars = [];
  metadata = [];
  sandbox_type = "";
  resources = record { cpu = ""; memory = ""; disk = "" };
  network = record { exposed_ports = []; port_bindings = [] };
  storage = record { volumes = [] };
  working_dir = "";
}

unfoldable pub new_task : Uuid → ℕ → String → String → Task
new_task fresh now name image = record {
  metadata = record { id = fresh; name = name; namespace = ""; labels = []; created_at = now };
  spec = record {
    sandbox_config = record zero_config {
      image = image;
      resources = record { cpu = "0.1"; memory = "256MB"; disk = "1GB" };
    };
    command = [];
    timeout = pos 0;
  };
  status = record zero_status { state = pending };
}

abbrev pub with_config : (SandboxConfig → SandboxConfig) → Task → Task
with_config f t = record t { spec = record (t.spec) { sandbox_config = f t.spec.sandbox_config } }

unfoldable pub with_resources : String → String → String → Task → Task
with_resources cpu memory disk =
    with_config λ c. record c { resources = record { cpu = cpu; memory = memory; disk = disk } }

unfoldable pub with_network : List String → Map String String → Task → Task
with_network ports bindings =
    with_config
      λ c. record c { network = record { exposed_ports = ports; port_bindings = bindings } }

unfoldable pub with_storage : Map String String → Task → Task
with_storage volumes = with_config λ c. record c { storage = record { volumes = volumes } }

-- The `switch` of UpdateStatus, on the status whose three fields are already written.
update_times : State → ℕ → TaskStatus → TaskStatus
update_times running now s = elim s.start_time [
  | none ↦ record s { start_time = some now }
  | some began ↦ s
]
update_times completed now s = record s { finish_time = some now }
update_times failed now s = record s { finish_time = some now }
update_times _ now s = s

unfoldable pub update_status : ℕ → State → String → String → Task → Task
unfolding update_times
update_status now state container_id message t = record t {
  status =
      update_times state now
        (record (t.status) { state = state; container_id = container_id; message = message });
}

unfoldable pub is_complete : Task → Bool
is_complete t = t.status.state == completed || t.status.state == failed

unfoldable pub duration : ℕ → Task → ℤ
duration now t = elim t.status.start_time [
  | none ↦ pos 0
  | some began ↦ elim t.status.finish_time [
    | some ended ↦ sub_ℕ ended began
    | none ↦ sub_ℕ now began
  ]
]

unfoldable pub validate : Task → Bool
validate t =
    not (t.metadata.id == uuid_nil)
    && ltb 0 (length t.spec.command)
    && is_positive t.spec.timeout
    && not (t.spec.sandbox_config.image == "")
