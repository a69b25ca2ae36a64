-- ===== src/Worker/Create.antt =====
-- internal/adapters/worker/worker_service.go, lines 120 to 203: runTask, AddTask's check and
-- createContainer.
use devops_platform.Base.{
  ◌-◌, String, concat, string_eq, nat_eq, if◌then◌else◌, Result, ok, Exec, raise, on_error,
  ignore_error, wrap_error, ◌>>=◌, ◌>>◌,
}
use devops_platform.Task.State.{creating, scheduled, state_eq, to_string, valid_state_transition}
use devops_platform.Task.Defs.{Task, Uuid, with_config}
use devops_platform.Store.Port.{Store}
use devops_platform.Sandbox.Port.{SandboxService}
use devops_platform.Sandbox.Factory.{Constructors, sandbox, new_container_sandbox_service}
use devops_platform.Worker.Defs.{
  WorkerService, with_status, state_output, notify_observers, put_task, fail_task,
}

-- The task as CreateContainerSandbox leaves it, which has a pointer to its configuration.
abbrev pub sandboxed : SandboxService → Task → Task
sandboxed service = with_config λ c. (service.create c).1

module _ {S : Type 0} (store : Store S) (id_string : Uuid → String)
    (constructors : Constructors) where
  -- Method calls on the service.
  abbrev pub put : Task → Exec (WorkerService S) (Unit {0})
  put = put_task store id_string

  abbrev pub fail : Task → String → Exec (WorkerService S) (Unit {0})
  fail = fail_task store id_string

  abbrev pub notify : Task → String → Exec (WorkerService S) (Unit {0})
  notify t state =
      notify_observers (id_string t.metadata.id) (state_output (id_string t.metadata.id) state "")

  -- sandbox.NewContainerSandboxService(t.Spec.SandboxConfig.SandboxType, t.Spec.SandboxConfig)
  abbrev pub sandbox_service : Task → Result SandboxService
  sandbox_service t =
      new_container_sandbox_service constructors t.spec.sandbox_config.sandbox_type
        (sandbox t.spec.sandbox_config)

  -- Step 3 of createContainer.
  unfoldable pub schedule_container : Task → String → Exec (WorkerService S) (Unit {0})
  schedule_container t container_id =
      if valid_state_transition t.status.state scheduled
      then (do
        let t' =
            with_status
              (λ s. record s {
                state = scheduled;
                container_id = container_id;
                message = "Container created, waiting for worker registration";
              })
              t
        wrap_error (put t') (concat "createContainer: error updating to scheduled: ")
        notify t' (to_string t'.status.state))
      else (do
        fail t "invalid transition Creating->Scheduled"
        raise "invalid transition Creating->Scheduled")

  unfoldable pub create_container : Task → Exec (WorkerService S) (Unit {0})
  unfolding schedule_container
  create_container t =
      if valid_state_transition t.status.state creating
      then (do
        let t' = with_status (λ s. record s { state = creating }) t
        wrap_error (put t') (concat "createContainer: error storing task: ")
        service ←
            on_error (λ w. (sandbox_service t', w))
              λ e. fail t' (concat "error creating sandbox service: " e)
        container_id ←
            on_error (λ w. ((service.create t'.spec.sandbox_config).0, w))
              λ e. fail (sandboxed service t') (concat "error creating container: " e)
        schedule_container (sandboxed service t') container_id)
      else raise (
          concat "createContainer: cannot transition from "
            (concat (to_string t.status.state) " to Creating"))

  -- The error of createContainer is logged, and the slot is given back at the end.
  unfoldable pub run_task : Task → Exec (WorkerService S) (Unit {0})
  unfolding create_container
  run_task t = do
    ignore_error (create_container t)
    λ w. (ok tt, record w { current_running = w.current_running - 1 })
