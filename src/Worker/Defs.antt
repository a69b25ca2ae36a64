-- ===== src/Worker/Defs.antt =====
-- internal/adapters/worker/worker_service.go: the state of the service and its methods, one function
-- each. The store, the sandbox constructors and the text of identifiers are parameters; the clock is
-- an argument. A stored task is its value at the last Put: createContainer and StopTask write to a task
-- between two Puts of it, and the second one stores what they wrote. The goroutines that StartTask
-- launches are recorded in `executions`, and their bodies are `execution_failed` and
-- `update_task_status`.
use devops_platform.Base.{
  ℕ, ◌+◌, ℤ, pos, is_zero, Bool, false, String, List, [], ◌∷◌, ◌++◌, none, some, Map, lookup,
  insert, string_eq, nat_eq, if◌then◌else◌, ok, err, panic, Exec, pure, ignore_error, ◌>>◌,
}
use devops_platform.Task.State.{State, failed, state_eq, valid_state_transition}
use devops_platform.Task.Defs.{Task, TaskStatus, Uuid}
use devops_platform.Store.Port.{Store, task}

-- internal/core/ports/observers.go
pub record CommandOutput : Type 0 where
  pub process_id : String
  pub is_stderr : Bool
  pub content : String
  pub state : String
  pub exit_code : ℤ
  pub error_msg : String

-- internal/core/domain/worker.go
pub record WorkerInstance : Type 0 where
  pub id : String
  pub name : String
  pub address : String
  pub port : ℤ
  pub is_healthy : Bool
  pub is_busy : Bool

-- A command that StartTask has handed to the gRPC client, with the timeout of its context.
pub record Execution : Type 0 where
  pub task : Task
  pub timeout : ℤ

-- 30 * time.Minute, in nanoseconds.
abbrev pub default_timeout : ℤ
default_timeout = pos 1_800_000_000_000

-- Calls of Notify, each with its observer, known by a number: how many of them pass a test. Each call has a
-- goroutine of its own, so they have no order.
abbrev pub Calls : Type 0
Calls = (ℕ × CommandOutput → Bool) → ℕ

-- One more call for each of the observers.
abbrev pub launched : CommandOutput → List ℕ → Calls → Calls
launched output [] calls = calls
launched output (o ∷ os) calls = λ p. launched output os calls p + (if p (o, output) then 1 else 0)

pub record WorkerService (S : Type 0) : Type 0 where
  pub name : String
  pub db : S
  pub observers : Map String (List ℕ)
  pub workers : Map String WorkerInstance
  pub max_concurrent : ℕ
  pub current_running : ℕ
  pub is_cancelled : Bool
  pub notified : Calls
  pub executions : List Execution

abbrev pub with_status : (TaskStatus → TaskStatus) → Task → Task
with_status f t = record t { status = f t.status }

abbrev pub with_state : State → String → Task → Task
with_state s m t = record t { status = record (t.status) { state = s; message = m } }

abbrev pub state_output : String → String → String → CommandOutput
state_output id state error = record {
  process_id = id;
  is_stderr = false;
  content = "";
  state = state;
  exit_code = pos 0;
  error_msg = error;
}

-- timeout := t.Spec.Timeout; if timeout == 0 { timeout = DEFAULT_TIMEOUT }
unfoldable pub effective_timeout : Task → ℤ
effective_timeout t = if is_zero t.spec.timeout then default_timeout else t.spec.timeout

module _ {S : Type 0} where
  unfoldable pub new_worker_service : String → S → ℕ → WorkerService S
  new_worker_service name db max_concurrent = record {
    name = name;
    db = db;
    observers = [];
    workers = [];
    max_concurrent = max_concurrent;
    current_running = 0;
    is_cancelled = false;
    notified = λ p. 0;
    executions = [];
  }

  -- w.Observers[taskID], the nil slice for a missing key
  abbrev pub registered : WorkerService S → String → List ℕ
  registered w task_id = elim (lookup task_id w.observers) [ none ↦ [] | some os ↦ os ]

  unfoldable pub register_observer : String → ℕ → Exec (WorkerService S) (Unit {0})
  register_observer task_id obs w = (
    ok tt,
    record w { observers = insert task_id (registered w task_id ++ obs ∷ []) w.observers },
  )

  unfoldable pub notify_observers : String → CommandOutput → Exec (WorkerService S) (Unit {0})
  notify_observers task_id output w = elim (lookup task_id w.observers) [
    | none ↦ (ok tt, w)
    | some os ↦ (ok tt, record w { notified = launched output os w.notified })
  ]

module _ {S : Type 0} (store : Store S) (id_string : Uuid → String) where
  -- w.Db.Put(t.Metadata.ID.String(), &t)
  unfoldable pub put_task : Task → Exec (WorkerService S) (Unit {0})
  put_task t w = elim (store.put (id_string t.metadata.id) (task t) w.db) [
    | ok db ↦ (ok tt, record w { db = db })
    | err e ↦ (err e, w)
    | panic ↦ (panic, w)
  ]

  unfoldable pub fail_task : Task → String → Exec (WorkerService S) (Unit {0})
  unfolding put_task notify_observers
  fail_task t msg =
      if valid_state_transition t.status.state failed
      then (do
        ignore_error (put_task (with_state failed msg t))
        notify_observers (id_string t.metadata.id)
            (state_output (id_string t.metadata.id) "failed" msg))
      else pure tt
