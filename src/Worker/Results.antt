-- ===== src/Worker/Results.antt =====
-- What the methods of internal/adapters/worker/worker_service.go return and write, on each of their branches.
use devops_platform.Base.{
  ℕ, ◌≡◌, refl, true, false, String, [], ◌∷◌, ◌++◌, some, remove, ok, err, concat, if◌then◌else◌,
  ◌>>=◌, on_error, ignore_error, wrap_error, string_eq, arith,
}
use devops_platform.Task.State.{
  creating, scheduled, running, stopping, completed, failed, to_string, valid_state_transition,
}
use devops_platform.Task.Defs.{Task, Uuid}
use devops_platform.Store.Port.{Store, task}
use devops_platform.Sandbox.Port.{SandboxService}
use devops_platform.Sandbox.Factory.{Constructors, sandbox, new_container_sandbox_service}
use devops_platform.Worker.Defs.{
  WorkerService, with_state, with_status, notify_observers, put_task, fail_task, effective_timeout,
}
use devops_platform.Worker.Create.{create_container, sandbox_service, sandboxed}
use devops_platform.Worker.Running.{start_task}
use devops_platform.Worker.Stopping.{stop_task}

-- The task as createContainer stores it first and last.
abbrev pub in_creating : Task → Task
in_creating = with_status λ s. record s { state = creating }

abbrev pub in_container : String → Task → Task
in_container id = with_status λ s. record s {
  state = scheduled;
  container_id = id;
  message = "Container created, waiting for worker registration";
}

creating_scheduled : valid_state_transition creating scheduled ≡ true
unfolding valid_state_transition
creating_scheduled = refl

creating_failed : valid_state_transition creating failed ≡ true
unfolding valid_state_transition
creating_failed = refl

stopping_completed : valid_state_transition stopping completed ≡ true
unfolding valid_state_transition
stopping_completed = refl

module _ {S : Type 0} (store : Store S) (id_string : Uuid → String)
    (constructors : Constructors) where
  -- A task that cannot go to `creating` is refused with nothing written: so is every task that
  -- was scheduled again after a failure.
  pub create_container_refused :
      (t : Task) (w : WorkerService S)
      → valid_state_transition t.status.state creating ≡ false
      → create_container store id_string constructors t w ≡ (
        err (
            concat "createContainer: cannot transition from "
              (concat (to_string t.status.state) " to Creating")),
        w,
      )
  unfolding create_container
  create_container_refused t w v = rw v

  -- Where the task may go to `creating`, the stores accept it twice and the sandbox is made,
  -- createContainer succeeds, and the store is the one after the second write: the task in `scheduled`
  -- with the container that the service gave.
  pub create_container_made :
      (t : Task) (w : WorkerService S) (service : SandboxService) (id : String) (s1 s2 : S)
      → valid_state_transition t.status.state creating ≡ true
      → store.put (id_string t.metadata.id) (task (in_creating t)) w.db ≡ ok s1
      → sandbox_service store id_string constructors (in_creating t) ≡ ok service
      → (service.create t.spec.sandbox_config).0 ≡ ok id
      → store.put
          (id_string t.metadata.id)
          (task (in_container id (sandboxed service (in_creating t))))
          s1
        ≡ ok s2
      → ((create_container store id_string constructors t w).0 ≡ ok tt)
        × ((create_container store id_string constructors t w).1.db ≡ s2)
  unfolding create_container put_task notify_observers ◌>>=◌ wrap_error on_error
  create_container_made t w service id s1 s2 v p1 f c p2 = ground (arith, creating_scheduled)

  -- Where the task may go to `creating`, the service cannot be made and the stores accept the task
  -- twice, createContainer returns the error and leaves the task as failed with the error in its
  -- message.
  pub create_container_unmade :
      (t : Task) (w : WorkerService S) (e : String) (s1 s2 : S)
      → valid_state_transition t.status.state creating ≡ true
      → store.put (id_string t.metadata.id) (task (in_creating t)) w.db ≡ ok s1
      → sandbox_service store id_string constructors (in_creating t) ≡ err e
      → store.put
          (id_string t.metadata.id)
          (task (with_state failed (concat "error creating sandbox service: " e) (in_creating t)))
          s1
        ≡ ok s2
      → ((create_container store id_string constructors t w).0 ≡ err e)
        × ((create_container store id_string constructors t w).1.db ≡ s2)
  unfolding create_container fail_task put_task notify_observers ◌>>=◌ wrap_error on_error
      ignore_error
  create_container_unmade t w e s1 s2 v p1 f p2 = ground (arith, creating_failed)

  -- Where the task may go to `stopping`, the stores accept it twice and the sandbox is deleted,
  -- StopTask succeeds: the task is completed at the given time, and its worker is no longer
  -- registered.
  pub stop_task_done :
      (now : ℕ) (t : Task) (w : WorkerService S) (service : SandboxService) (s1 s2 : S)
      → valid_state_transition t.status.state stopping ≡ true
      → store.put
          (id_string t.metadata.id)
          (task (with_state stopping "Stopping container..." t))
          w.db
        ≡ ok s1
      → new_container_sandbox_service constructors t.spec.sandbox_config.sandbox_type
          (sandbox t.spec.sandbox_config)
        ≡ ok service
      → service.delete t.status.container_id ≡ ok tt
      → store.put
          (id_string t.metadata.id)
          (task (
            with_status
              (λ s. record s {
                state = completed;
                finish_time = some now;
                message = "Container stopped";
              })
              t))
          s1
        ≡ ok s2
      → ((stop_task store id_string constructors now t w).0 ≡ ok tt)
        × ((stop_task store id_string constructors now t w).1.db ≡ s2)
        × ((stop_task store id_string constructors now t w).1.workers
            ≡ remove t.status.container_id w.workers)
  unfolding stop_task put_task notify_observers ◌>>=◌ wrap_error on_error
  stop_task_done now t w service s1 s2 v p1 f d p2 = ground (arith, stopping_completed)

module _ {S : Type 0} (store : Store S) (id_string : Uuid → String) where
  -- failTask writes the failed task exactly where the task may go to `failed`, provided the store
  -- accepts it; elsewhere the store stays as it was.
  pub fail_task_lem :
      (t : Task) (msg : String) (w : WorkerService S) (s : S)
      → store.put (id_string t.metadata.id) (task (with_state failed msg t)) w.db ≡ ok s
      → (fail_task store id_string t msg w).1.db
        ≡ (if valid_state_transition t.status.state failed then s else w.db)
  unfolding fail_task put_task notify_observers ◌>>=◌ ignore_error
  fail_task_lem t msg w s p = ground arith

  -- Where the task may run and the store accepts it as running, StartTask succeeds: the task is
  -- stored, and its command is handed over once, with the timeout of the task or thirty minutes for
  -- none.
  pub start_task_runs :
      (t : Task) (w : WorkerService S) (s : S)
      → valid_state_transition t.status.state running ≡ true
      → store.put
          (id_string t.metadata.id)
          (task (with_state running "Executing command..." t))
          w.db
        ≡ ok s
      → ((start_task store id_string t w).0 ≡ ok tt)
        × ((start_task store id_string t w).1.db ≡ s)
        × ((start_task store id_string t w).1.executions
            ≡ w.executions
              ++ record {
                task = with_state running "Executing command..." t;
                timeout = effective_timeout t;
              }
                ∷ [])
  unfolding start_task put_task notify_observers effective_timeout ◌>>=◌ wrap_error
  start_task_runs t w s v p = ground arith

  -- Where the store refuses the write, StartTask returns its error and starts nothing.
  pub start_task_unstored :
      (t : Task) (w : WorkerService S) (e : String)
      → valid_state_transition t.status.state running ≡ true
      → store.put
          (id_string t.metadata.id)
          (task (with_state running "Executing command..." t))
          w.db
        ≡ err e
      → start_task store id_string t w ≡ (err (concat "StartTask: error updating DB: " e), w)
  unfolding start_task put_task notify_observers ◌>>=◌ wrap_error
  start_task_unstored t w e v p = ground arith
