-- ===== src/Tests/Fixtures.antt =====
-- The tasks, the services and the in-memory store of the tests.
use devops_platform.Base.{
  ℕ, ◌+◌, ◌-◌, ◌*◌, ◌/◌, ltb, arith, refl, none, some, pos, String, [], ◌∷◌, Map, ok, err, false,
}
use devops_platform.Task.State.{State}
use devops_platform.Task.Defs.{Task, Uuid, zero_status, zero_config}
use devops_platform.Store.Port.{Store}
use devops_platform.Store.Memory.Tasks.{in_memory_task_store}
use devops_platform.Sandbox.Port.{SandboxService}
use devops_platform.Sandbox.Factory.{Constructors}
use devops_platform.Worker.Defs.{WorkerService}
use devops_platform.Scheduler.Floats.{Float, IsOrdered}
use devops_platform.Scheduler.Stats.{Stats}
use devops_platform.Scheduler.Node.{Node}
use devops_platform.Scheduler.Costs.{Demand, Answers}

abbrev pub task_in : State → Task
task_in s = record {
  metadata = record { id = 1; name = "build"; namespace = ""; labels = []; created_at = 0 };
  spec = record {
    sandbox_config = record zero_config { image = "golang"; sandbox_type = "docker" };
    command = "make" ∷ [];
    timeout = pos 60;
  };
  status = record zero_status { state = s; container_id = "c1" };
}

abbrev pub id_string : Uuid → String
id_string n = "1"

abbrev pub store : Store (Map String Task)
store = in_memory_task_store λ m. m

abbrev pub docker : SandboxService
docker = record { create = λ c. (ok "c1", c); delete = λ id. ok tt; list = ok [] }

abbrev pub constructors : Constructors
constructors = record {
  new_docker = ok docker;
  new_kubernetes = λ k. err "no cluster";
  new_hyper_v = λ h. err "no host";
}

abbrev pub no_docker : Constructors
no_docker = record {
  new_docker = err "no daemon";
  new_kubernetes = λ k. err "no cluster";
  new_hyper_v = λ h. err "no host";
}

-- A service whose store has the task under its key.
abbrev pub service_with : Task → WorkerService (Map String Task)
service_with t = record {
  name = "worker";
  db = ("1", t) ∷ [];
  observers = [];
  workers = [];
  max_concurrent = 2;
  current_running = 0;
  is_cancelled = false;
  notified = λ p. 0;
  executions = [];
}

-- In tenths.
abbrev pub numbers : Float ℕ
numbers = record {
  zero = 0;
  one = 10;
  tenth = 1;
  lieb = 15;
  max_jobs = 40;
  capacity = 17;
  add = λ a b. a + b;
  sub = λ a b. a - b;
  mul = λ a b. a * b / 10;
  div = λ a b. a / b;
  pow = λ a b. a * b;
  lt = ltb;
  of_uint64 = λ n. n * 10;
  of_int64 = λ n. n * 10;
  of_int = λ n. n * 10;
  to_uint64 = λ n. n / 10;
}

pub numbers-IsOrdered : IsOrdered numbers
numbers-IsOrdered = record {
  lt_irrefl = λ a. ground arith;
  lt_trans = λ a b c p q. ground arith;
  tenth-lt-one = refl;
}

abbrev pub node_named : String → Node
node_named name = record {
  name = name;
  ip = "";
  api = "";
  memory = 0;
  memory_allocated = 0;
  disk = 100;
  disk_allocated = 10;
  stats = record { mem_stats = none; disk_stats = none; cpu_stats = none; task_count = 0 };
  role = "worker";
  task_count = 0;
}

abbrev pub stats_idle : ℕ → Stats
stats_idle idle = record {
  mem_stats = some (record { mem_total = 8; mem_available = 6 });
  disk_stats = some (record { all = 100; used = 10; free = 90 });
  cpu_stats = some (record {
    user = 4;
    nice = 0;
    system = 1;
    idle = idle;
    io_wait = 0;
    irq = 0;
    soft_irq = 0;
    steal = 0;
  });
  task_count = 1;
}

abbrev pub answers : Answers
answers = record {
  first = ok (record { status_code = 200; body = some (stats_idle 3) });
  second = ok (record { status_code = 200; body = some (stats_idle 4) });
}

abbrev pub demand : Demand
demand = record { disk = 50; memory = 0 }
