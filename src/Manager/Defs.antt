-- ===== src/Manager/Defs.antt =====
-- internal/adapters/manager/manager.go, lines 25 to 93 and 356 to 369: the state of the manager, its
-- constructor, GetTasks and AddTask. The file reads the identifier and the state of a task where another
-- version of the struct had them: they are those of its metadata and its status.
use devops_platform.Base.{
  ℕ, String, concat, List, [], ◌∷◌, ◌++◌, map, Option, none, some, Map, insert, ◌==◌, string_eq,
  if◌then◌else◌, Result, ok, err, panic,
}
use devops_platform.Task.Defs.{Task, TaskEvent, Uuid}
use devops_platform.Store.Port.{Store, as_tasks}
use devops_platform.Scheduler.Node.{Node, new_node}
use devops_platform.Scheduler.RoundRobin.{RoundRobin}

-- What the queue of `interface{}` values holds.
pub data Item : Type 0 where
  event : TaskEvent → Item
  task : Task → Item

-- The scheduler.Scheduler of the manager.
pub data Scheduler : Type 0 where
  round_robin : RoundRobin → Scheduler
  greedy epvm : Scheduler

-- A request to a worker: POST /tasks with an event, DELETE /tasks/id.
pub data Request : Type 0 where
  post : String → TaskEvent → Request
  delete : String → String → Request

-- A node is known by its name, which is that of its worker; `requests` is what was sent. The pointer `worker`
-- has no field: nothing sets it, so it is nil.
pub record Manager (S E : Type 0) : Type 0 where
  pub pending : List Item
  pub task_db : S
  pub event_db : E
  pub workers : List String
  pub worker_task_map : Map String (List Uuid)
  pub task_worker_map : Map Uuid String
  pub last_worker : ℕ
  pub worker_nodes : List Node
  pub scheduler : Scheduler
  pub requests : List Request

-- workerTaskMap[worker] = []uuid.UUID{}, for each worker
unfoldable pub no_tasks : List String → Map String (List Uuid) → Map String (List Uuid)
no_tasks [] m = m
no_tasks (w ∷ ws) m = no_tasks ws (insert w [] m)

unfoldable pub worker_node : String → Node
worker_node w = new_node w (concat "http://" w) "worker"

unfoldable pub scheduler_of : String → Scheduler
scheduler_of kind =
    if kind == "greedy"
    then greedy
    else if kind == "roundrobin"
    then round_robin (record { name = "roundrobin"; last_worker = 0 })
    else epvm

-- Of two errors in turn, which is left in `err`: the second one, also where it is nil.
abbrev pub last_error {ℓ κ} : {A : Type ℓ} {B : Type κ} → Result A → Result B → Option String
last_error a (err e) = some e
last_error a b = none

module _ {S E : Type 0} where
  unfoldable pub manager_on : S → E → List String → String → Manager S E
  unfolding no_tasks worker_node scheduler_of
  manager_on task_db event_db workers scheduler_type = record {
    pending = [];
    task_db = task_db;
    event_db = event_db;
    workers = workers;
    worker_task_map = no_tasks workers [];
    task_worker_map = [];
    last_worker = 0;
    worker_nodes = map worker_node workers;
    scheduler = scheduler_of scheduler_type;
    requests = [];
  }

  unfoldable pub add_task : TaskEvent → Manager S E → Manager S E
  add_task te m = record m { pending = m.pending ++ event te ∷ [] }

  -- On an error the nil slice.
  unfoldable pub get_tasks : Store S → Manager S E → Result (List Task)
  get_tasks store m = elim (store.list m.task_db) [
    | ok listing ↦ as_tasks listing
    | err e ↦ ok []
    | panic ↦ panic
  ]

-- The store behind a pointer that is nil after an error.
abbrev pub opened : {A : Type 0} → Result A → Option A
opened (ok a) = some a
opened _ = none

-- The stores of New: nil interfaces for a type that it does not know, and a nil pointer where a file did
-- not open and the error was lost. `log.Fatalf` is the error.
unfoldable pub new_manager :
    {S E : Type 0}
    → Result S
    → Result E
    → S
    → E
    → List String
    → String
    → String
    → Result (Manager (Option S) (Option E))
unfolding manager_on
new_manager open_tasks open_events empty_tasks empty_events workers scheduler_type db_type =
    if db_type == "memory"
    then ok (manager_on (some empty_tasks) (some empty_events) workers scheduler_type)
    else if db_type == "persistent"
    then (elim (last_error open_tasks open_events) [
      | some e ↦ err (concat "unable to create task store: " e)
      | none ↦ ok (manager_on (opened open_tasks) (opened open_events) workers scheduler_type)
    ])
    else ok (manager_on none none workers scheduler_type)
