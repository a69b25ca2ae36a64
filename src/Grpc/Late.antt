-- ===== src/Grpc/Late.antt =====
-- A health check of internal/adapters/worker/worker_service.go that ends after its task was stopped: CheckTaskHealth
-- has a copy of the task from the tick of UpdateTasks that launched it.
use devops_platform.Base.{
  ℕ, ◌≡◌, refl, ◌∙◌, ap, true, String, List, [], ◌∷◌, ◌++◌, some, Map, insert, lookup-insert_self,
  ok, string_eq,
}
use devops_platform.Task.State.{running, stopping, completed, failed, valid_state_transition}
use devops_platform.Task.Defs.{Task, Uuid}
use devops_platform.Store.Port.{Store, task}
use devops_platform.Store.Memory.Tasks.{get, put, in_memory_task_store}
use devops_platform.Sandbox.Port.{SandboxService}
use devops_platform.Sandbox.Factory.{Constructors, sandbox, new_container_sandbox_service}
use devops_platform.Worker.Defs.{WorkerService, with_state, with_status}
use devops_platform.Worker.Stopping
use devops_platform.Worker.Stopping.{stop_task, check_task_health}
use devops_platform.Worker.Results.{stop_task_done, fail_task_lem}
use devops_platform.Grpc.Streams.{Incoming, received, serve_health_check, check_task_health-served}

running_stopping : valid_state_transition running stopping ≡ true
unfolding valid_state_transition
running_stopping = refl

running_failed : valid_state_transition running failed ≡ true
unfolding valid_state_transition
running_failed = refl

-- The task as StopTask stores it last.
abbrev pub in_completed : ℕ → Task → Task
in_completed now =
    with_status
      λ s. record s { state = completed; finish_time = some now; message = "Container stopped" }

get-insert_self : (k : String) (t : Task) (m : Map String Task) → get k (insert k t m) ≡ ok (task t)
unfolding get
get-insert_self k t m = rw (lookup-insert_self k t m) refl

module _ (order : Map String Task → Map String Task) (id_string : Uuid → String)
    (constructors : Constructors) where
  abbrev store : Store (Map String Task)
  store = in_memory_task_store order

  timed_out_late :
      (t : Task) (requests : List Incoming) (w : WorkerService (Map String Task))
      → t.status.state ≡ running
      → (check_task_health store id_string t
          (received (serve_health_check requests).0 ++ Stopping.timed_out ∷ [])
          w).1.db
        ≡ insert (id_string t.metadata.id) (with_state failed "health check timeout" t) w.db
  unfolding put
  timed_out_late t requests w r =
      ap (λ o. o.1.db) (check_task_health-served store id_string t requests w r).1
      ∙ (fail_task_lem store id_string t "health check timeout" w _ refl
          ∙ rw (ap (λ s. valid_state_transition s failed) r ∙ running_failed) refl)

  -- Over the in-memory store: where the sandbox of a running task is deleted, StopTask succeeds and stores the
  -- task as completed; a health check of the copy from before, whose time is up after any answers of the
  -- worker, then stores it as failed.
  pub stopped_then_failed :
      (now : ℕ) (t : Task) (requests : List Incoming) (w : WorkerService (Map String Task))
      (service : SandboxService)
      → t.status.state ≡ running
      → new_container_sandbox_service constructors t.spec.sandbox_config.sandbox_type
          (sandbox t.spec.sandbox_config)
        ≡ ok service
      → service.delete t.status.container_id ≡ ok tt
      → let key = id_string t.metadata.id in
        let stopped = stop_task store id_string constructors now t w in
        let events = received (serve_health_check requests).0 ++ Stopping.timed_out ∷ [] in
        let late = check_task_health store id_string t events stopped.1 in
        (stopped.0 ≡ ok tt)
        × (get key stopped.1.db ≡ ok (task (in_completed now t)))
        × (get key late.1.db ≡ ok (task (with_state failed "health check timeout" t)))
  unfolding put
  stopped_then_failed now t requests w service r f d =
      let key = id_string t.metadata.id in
      let (done, db, _) =
        stop_task_done store id_string constructors now t w service _ _
          (ap (λ s. valid_state_transition s stopping) r ∙ running_stopping) refl f d refl in
      (
        done,
        rw db (get-insert_self key _ _),
        rw (timed_out_late t requests (stop_task store id_string constructors now t w).1 r)
            (get-insert_self key _ _),
      )
