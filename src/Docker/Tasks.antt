-- ===== src/Docker/Tasks.antt =====
-- The methods on tasks of internal/adapters/resource/docker/docker_pool.go, but ExecuteTask, and the status of a
-- task in internal/core/domain/resource/resource.go.
use devops_platform.Base.{ℕ, ℤ, Bool, String, Option, none, Result, ok, err}

pub data TaskState : Type 0 where
  task_state_pending task_state_running task_state_completed task_state_failed : TaskState

-- `type TaskState string`
abbrev pub text_of : TaskState → String
text_of task_state_pending = "PENDING"
text_of task_state_running = "RUNNING"
text_of task_state_completed = "COMPLETED"
text_of task_state_failed = "FAILED"

pub record TaskStatus : Type 0 where
  pub id : String
  pub state : TaskState
  pub start_time : Option ℕ
  pub finish_time : Option ℕ
  pub exit_code : Option ℤ
  pub error : String

-- The same two fields whatever the task.
unfoldable pub get_task_status : String → Result TaskStatus
get_task_status task_id = ok (record {
  id = task_id;
  state = task_state_running;
  start_time = none;
  finish_time = none;
  exit_code = none;
  error = "";
})

abbrev pub get_task_logs : String → Bool → Result (Unit {0})
get_task_logs task_id follow = err "not implemented"

abbrev pub stop_task : String → Result (Unit {0})
stop_task task_id = err "not implemented"
