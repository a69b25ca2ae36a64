-- ===== src/Worker/Stopping.antt =====
-- internal/adapters/worker/worker_service.go, lines 386 to 439 and 486 to 589: the stop of a task, its
-- health checks, the listing and the shutdown.
use devops_platform.Base.{
  ℕ, Bool, true, false, not, String, concat, List, [], ◌∷◌, some, remove, ◌==◌, string_eq, nat_eq,
  if◌then◌else◌, Result, ok, err, panic, bind, Exec, pure, raise, on_error, wrap_error, ◌>>=◌, ◌>>◌,
}
use devops_platform.Task.State.{
  running, stopping, completed, state_eq, to_string, valid_state_transition,
}
use devops_platform.Task.Defs.{Task, Uuid}
use devops_platform.Store.Port.{Store, as_tasks}
use devops_platform.Sandbox.Factory.{Constructors, sandbox, new_container_sandbox_service}
use devops_platform.Worker.Defs.{
  WorkerService, with_status, with_state, state_output, notify_observers, put_task, fail_task,
}

-- What a health check receives: a response, the end of the channel, or the end of its context.
pub data HealthEvent : Type 0 where
  response : Bool → String → HealthEvent
  closed timed_out : HealthEvent

-- The running tasks of a listing.
unfoldable pub running_tasks : List Task → List Task
running_tasks [] = []
running_tasks (t ∷ ts) =
    if t.status.state == running then t ∷ running_tasks ts else running_tasks ts

module _ {S : Type 0} (store : Store S) (id_string : Uuid → String)
    (constructors : Constructors) where
  -- Method calls on the service.
  abbrev pub put : Task → Exec (WorkerService S) (Unit {0})
  put = put_task store id_string

  abbrev pub fail : Task → String → Exec (WorkerService S) (Unit {0})
  fail = fail_task store id_string

  abbrev pub notify : Task → String → Exec (WorkerService S) (Unit {0})
  notify t state =
      notify_observers (id_string t.metadata.id) (state_output (id_string t.metadata.id) state "")

  -- StopTask from Stopping to Completed.
  unfoldable pub stopped : ℕ → Task → Exec (WorkerService S) (Unit {0})
  stopped now t =
      if valid_state_transition t.status.state completed
      then (do
        let t' =
            with_status
              (λ s. record s {
                state = completed;
                finish_time = some now;
                message = "Container stopped";
              })
              t
        wrap_error (put t') (concat "StopTask: error updating to completed: ")
        notify t' "completed"
        λ w. (ok tt, record w { workers = remove t'.status.container_id w.workers }))
      else (do
        fail t "invalid transition from Stopping->Completed"
        raise "StopTask: invalid transition to Completed")

  unfoldable pub stop_task : ℕ → Task → Exec (WorkerService S) (Unit {0})
  unfolding stopped
  stop_task now t =
      if valid_state_transition t.status.state stopping
      then (do
        let t1 = with_state stopping "Stopping container..." t
        wrap_error (put t1) (concat "StopTask: error updating to stopping: ")
        service ←
            on_error
              (λ w. (
                new_container_sandbox_service constructors t1.spec.sandbox_config.sandbox_type
                    (sandbox t1.spec.sandbox_config),
                w,
              ))
              λ e. fail t1 (concat "StopTask: error creating sandbox service: " e)
        on_error (λ w. (service.delete t1.status.container_id, w))
            λ e. fail t1 (concat "StopTask: error deleting sandbox: " e)
        stopped now t1)
      else raise (
          concat "StopTask: invalid transition from "
            (concat (to_string t.status.state) " to Stopping"))

module _ {S : Type 0} (store : Store S) (id_string : Uuid → String) where
  -- The loop of CheckTaskHealth over what its `select` receives; it waits at the end of the list.
  unfoldable pub health_loop : Task → List HealthEvent → Exec (WorkerService S) (Unit {0})
  health_loop t [] = pure tt
  health_loop t (closed ∷ events) = pure tt
  health_loop t (timed_out ∷ events) = fail_task store id_string t "health check timeout"
  health_loop t (response true status ∷ events) = health_loop t events
  health_loop t (response false status ∷ events) =
      fail_task store id_string t (concat "health check failed: " status)

  unfoldable pub check_task_health : Task → List HealthEvent → Exec (WorkerService S) (Unit {0})
  unfolding health_loop
  check_task_health t events =
      if not (t.status.state == running) then pure tt else health_loop t events

  -- One tick of UpdateTasks: the tasks whose health check is launched.
  unfoldable pub update_tasks_tick : WorkerService S → Result (List Task)
  unfolding running_tasks
  update_tasks_tick w = elim (store.list w.db) [
    | ok listing ↦ bind (as_tasks listing) λ ts. ok (running_tasks ts)
    | err e ↦ ok []
    | panic ↦ panic
  ]

  -- On an error the nil slice.
  unfoldable pub get_tasks : WorkerService S → Result (List Task)
  get_tasks w = elim (store.list w.db) [
    | ok listing ↦ as_tasks listing
    | err e ↦ ok []
    | panic ↦ panic
  ]

  unfoldable pub shutdown : WorkerService S → WorkerService S
  shutdown w = record w { is_cancelled = true }
