-- ===== src/Worker/Running.antt =====
-- internal/adapters/worker/worker_service.go, lines 205 to 384: the registration of a worker, the start of
-- its task, and the status that the output of the command gives it.
use devops_platform.Base.{
  ℕ, is_zero, not, String, concat, List, [], ◌∷◌, ◌++◌, Option, none, some, insert, ◌==◌, string_eq,
  nat_eq, if◌then◌else◌, ok, err, panic, Exec, pure, raise, ignore_error, wrap_error, continue,
  ◌>>=◌, ◌>>◌,
}
use mathlib.Core.Option
use devops_platform.Task.State.{
  scheduled, starting, running, completed, failed, state_eq, to_string, valid_state_transition,
}
use devops_platform.Task.Defs.{Task, TaskStatus, Uuid}
use devops_platform.Store.Port.{Store, task, as_task, as_tasks}
use devops_platform.Worker.Defs.{
  WorkerService, WorkerInstance, CommandOutput, with_state, state_output, effective_timeout,
  notify_observers, put_task, fail_task,
}

-- The first task of the listing that runs in the container.
unfoldable pub find_by_container : String → List Task → Option Task
find_by_container id [] = none
find_by_container id (t ∷ ts) =
    if t.status.container_id == id then some t else find_by_container id ts

-- The `switch` of updateTaskStatus: `none` is its default case.
unfoldable pub output_status : ℕ → String → TaskStatus → Option TaskStatus
output_status now word s =
    if word == "running"
    then some (if valid_state_transition s.state running then record s { state = running } else s)
    else if word == "completed"
    then some (
        if valid_state_transition s.state completed
        then record s { state = completed; finish_time = some now }
        else s)
    else if word == "failed"
    then some (if valid_state_transition s.state failed then record s { state = failed } else s)
    else none

-- The message and the exit code, which are written whether or not the transition was valid.
abbrev pub with_result : CommandOutput → TaskStatus → TaskStatus
with_result output s = record s {
  message = output.error_msg;
  exit_code = if is_zero output.exit_code then s.exit_code else some output.exit_code;
}

module _ {S : Type 0} (store : Store S) (id_string : Uuid → String) where
  -- Method calls on the service.
  abbrev pub put : Task → Exec (WorkerService S) (Unit {0})
  put = put_task store id_string

  abbrev pub fail : Task → String → Exec (WorkerService S) (Unit {0})
  fail = fail_task store id_string

  abbrev pub notify : Task → String → Exec (WorkerService S) (Unit {0})
  notify t state =
      notify_observers (id_string t.metadata.id) (state_output (id_string t.metadata.id) state "")

  -- The goroutine of StartTask is launched with the timeout of its context.
  unfoldable pub launch : Task → Exec (WorkerService S) (Unit {0})
  launch t w = (
    ok tt,
    record w {
      executions = w.executions ++ record { task = t; timeout = effective_timeout t } ∷ [];
    },
  )

  unfoldable pub start_task : Task → Exec (WorkerService S) (Unit {0})
  unfolding launch
  start_task t =
      if valid_state_transition t.status.state running
      then (do
        let t' = with_state running "Executing command..." t
        wrap_error (put t') (concat "StartTask: error updating DB: ")
        launch t'
        notify t' (to_string t'.status.state))
      else (do
        fail t (concat "invalid transition from " (concat (to_string t.status.state) " to Running"))
        raise "StartTask: invalid transition to Running")

  -- What the goroutine does where ExecuteCommand returns an error.
  unfoldable pub execution_failed : Task → String → Exec (WorkerService S) (Unit {0})
  execution_failed t e = do
    notify_observers (id_string t.metadata.id) (state_output (id_string t.metadata.id) "failed" e)
    fail t (concat "command execution error: " e)

  -- RegisterWorker from the matching task on.
  unfoldable pub register_for : WorkerInstance → Option Task → Exec (WorkerService S) (Unit {0})
  unfolding start_task
  register_for worker none = pure tt
  register_for worker (some t) =
      if not (t.status.state == scheduled)
      then pure tt
      else if not worker.is_healthy
      then (do fail t "Worker not healthy"; raise "RegisterWorker: worker not healthy")
      else if not (valid_state_transition t.status.state starting)
      then (do
        fail t "cannot transition to Starting"
        raise "RegisterWorker: invalid transition to Starting")
      else (do
        let t' = with_state starting "Worker is healthy, starting task" t
        ignore_error (put t')
        wrap_error (start_task t') (concat "RegisterWorker: StartTask failed: "))

  unfoldable pub register_worker : WorkerInstance → Exec (WorkerService S) (Unit {0})
  unfolding register_for find_by_container
  register_worker worker = do
    λ w. (ok tt, record w { workers = insert worker.id worker w.workers })
    listing ←
        wrap_error (λ w. (store.list w.db, w)) (concat "RegisterWorker: error listing tasks: ")
    ts ← λ w. (as_tasks listing, w)
    register_for worker (find_by_container worker.id ts)

module _ {S : Type 0} (store : Store S) where
  -- w.Db.Put(taskID, t), whose error is logged
  unfoldable pub store_status :
      String → Task → Option TaskStatus → Exec (WorkerService S) (Unit {0})
  store_status task_id t none w = (ok tt, w)
  store_status task_id t (some s) w =
      elim (store.put task_id (task (record t { status = s })) w.db) [
        | ok db ↦ (ok tt, record w { db = db })
        | err e ↦ (ok tt, w)
        | panic ↦ (panic, w)
      ]

  unfoldable pub update_task_status : ℕ → String → CommandOutput → Exec (WorkerService S) (Unit {0})
  unfolding output_status store_status
  update_task_status now task_id output w = elim (store.get task_id w.db) [
    | ok res ↦
        continue (as_task res)
          (λ t.
            store_status task_id t
              (Option.map (with_result output) (output_status now output.state t.status)))
          w
    | err e ↦ (ok tt, w)
    | panic ↦ (panic, w)
  ]

  -- processTaskOutput, over the outputs that it receives before the channel or the context ends.
  unfoldable pub process_task_output :
      List (ℕ × CommandOutput) → String → Exec (WorkerService S) (Unit {0})
  unfolding update_task_status
  process_task_output [] task_id = pure tt
  process_task_output ((now, output) ∷ outputs) task_id = do
    notify_observers task_id output
    update_task_status now task_id output
    process_task_output outputs task_id
