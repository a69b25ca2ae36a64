-- ===== src/Worker/Follows/Methods.antt =====
-- StartTask, its goroutine, CheckTaskHealth and RegisterWorker of
-- internal/adapters/worker/worker_service.go against the life cycle of a task.
use devops_platform.Base.{
  ◌≡◌, refl, true, false, not, String, List, [], ◌∷◌, insert, some, ◌==◌, string_eq, ok, wrap_error,
  ◌>>=◌, arith,
}
use devops_platform.Task.State.{scheduled, starting, running, valid_state_transition, state_eq}
use devops_platform.Task.Graph.{◌⟶*◌, here, one, edge-of-valid}
use devops_platform.Task.Defs.{Task, Uuid}
use devops_platform.Store.Port.{Store, IsTaskStore, tasks}
use devops_platform.Worker.Defs.{WorkerService, WorkerInstance, with_state}
use devops_platform.Worker.Running
use devops_platform.Worker.Stopping
use devops_platform.Worker.Follows.Rules.{
  Follows, Keeps, Keeps-pure, Keeps-bind, Keeps-wrap, Keeps-ignore, Keeps-if, Keeps-notify,
  Keeps-put_task, Keeps-fail_task, Keeps-tt, Keeps-raise, Keeps-from,
}

module _ {S : Type 0} {store : Store S} {IsSound : S → Type 0} {init : S}
    (laws : IsTaskStore store IsSound init) (id_string : Uuid → String) where
  pub start_task-Keeps :
      (t : Task)
      → Keeps laws t.status.state (id_string t.metadata.id) (Running.start_task store id_string t)
  unfolding Running.start_task
  start_task-Keeps t =
      Keeps-if laws (valid_state_transition t.status.state running) _ _
        (λ v.
          Keeps-bind laws _ _
            (Keeps-wrap laws _ _
              (Keeps-put_task laws id_string _ (one (edge-of-valid t.status.state running v))))
            λ _.
              Keeps-bind laws _ _ (Keeps-pure laws (Running.launch store id_string _) (λ w. refl))
                λ _. Keeps-notify laws _ _)
        (λ _.
          Keeps-bind laws _ _ (Keeps-fail_task laws id_string t _ here) λ _. Keeps-raise laws _ _ _)

  pub execution_failed-Keeps :
      (t : Task) (e : String)
      → Keeps laws t.status.state
          (id_string t.metadata.id)
          (Running.execution_failed store id_string t e)
  unfolding Running.execution_failed
  execution_failed-Keeps t e =
      Keeps-bind laws _ _ (Keeps-notify laws _ _) λ _. Keeps-fail_task laws id_string t _ here

  health_loop-Keeps :
      (t : Task) (events : List Stopping.HealthEvent)
      → Keeps laws t.status.state
          (id_string t.metadata.id)
          (Stopping.health_loop store id_string t events)
  unfolding Stopping.health_loop
  health_loop-Keeps t [] = Keeps-tt laws _ _
  health_loop-Keeps t (Stopping.closed ∷ events) = Keeps-tt laws _ _
  health_loop-Keeps t (Stopping.timed_out ∷ events) = Keeps-fail_task laws id_string t _ here
  health_loop-Keeps t (Stopping.response true status ∷ events) = health_loop-Keeps t events
  health_loop-Keeps t (Stopping.response false status ∷ events) =
      Keeps-fail_task laws id_string t _ here

  pub check_task_health-Keeps :
      (t : Task) (events : List Stopping.HealthEvent)
      → Keeps laws t.status.state
          (id_string t.metadata.id)
          (Stopping.check_task_health store id_string t events)
  unfolding Stopping.check_task_health
  check_task_health-Keeps t events =
      Keeps-if laws (not (t.status.state == running)) _ _ (λ _. Keeps-tt laws _ _)
        (λ _. health_loop-Keeps t events)

  -- StartTask changes the store at the task's key only, and only to a task whose state is reached from
  -- the argument's by allowed transitions.
  pub start_task-Follows :
      (t : Task) (w : WorkerService S)
      → IsSound w.db
      → Follows laws t.status.state
          (id_string t.metadata.id)
          w.db
          (Running.start_task store id_string t w).1.db
  start_task-Follows t = (start_task-Keeps t).apply

  -- So does what StartTask's goroutine does on an error of the client.
  pub execution_failed-Follows :
      (t : Task) (e : String) (w : WorkerService S)
      → IsSound w.db
      → Follows laws t.status.state
          (id_string t.metadata.id)
          w.db
          (Running.execution_failed store id_string t e w).1.db
  execution_failed-Follows t e = (execution_failed-Keeps t e).apply

  -- CheckTaskHealth, whatever it receives, changes the store at the task's key only, and only to a task
  -- whose state is reached from the argument's by allowed transitions.
  pub check_task_health-Follows :
      (t : Task) (events : List Stopping.HealthEvent) (w : WorkerService S)
      → IsSound w.db
      → Follows laws t.status.state
          (id_string t.metadata.id)
          w.db
          (Stopping.check_task_health store id_string t events w).1.db
  check_task_health-Follows t events = (check_task_health-Keeps t events).apply

  register_for-Keeps :
      (worker : WorkerInstance) (t : Task)
      → Keeps laws t.status.state
          (id_string t.metadata.id)
          (Running.register_for store id_string worker (some t))
  unfolding Running.register_for
  register_for-Keeps worker t =
      Keeps-if laws (not (t.status.state == scheduled)) _ _ (λ _. Keeps-tt laws _ _)
        λ _.
          Keeps-if laws (not worker.is_healthy) _ _
            (λ _.
              Keeps-bind laws _ _ (Keeps-fail_task laws id_string t _ here)
                λ _. Keeps-raise laws _ _ _)
            λ _.
              Keeps-if laws (not (valid_state_transition t.status.state starting)) _ _
                (λ _.
                  Keeps-bind laws _ _ (Keeps-fail_task laws id_string t _ here)
                    λ _. Keeps-raise laws _ _ _)
                λ v.
                  Keeps-bind laws _ _
                    (Keeps-ignore laws _ (Keeps-put_task laws id_string _ (to_starting v)))
                    λ _. Keeps-wrap laws _ _ (
                      Keeps-from laws _ (to_starting v) (
                        start_task-Keeps
                          (with_state starting "Worker is healthy, starting task" t)))
    where
      to_starting :
          not (valid_state_transition t.status.state starting) ≡ false → t.status.state ⟶* starting
      to_starting v = one (edge-of-valid t.status.state starting (ground arith))

  -- Where the store lists its tasks and one has the worker's container, RegisterWorker changes the
  -- store only at the key of the first such task, and only to a task whose state is reached from that
  -- task's by allowed transitions.
  pub register_worker-Follows :
      (worker : WorkerInstance) (w : WorkerService S) (ts : List Task) (t : Task)
      → IsSound w.db
      → store.list w.db ≡ ok (tasks ts)
      → Running.find_by_container worker.id ts ≡ some t
      → Follows laws t.status.state
          (id_string t.metadata.id)
          w.db
          (Running.register_worker store id_string worker w).1.db
  unfolding Running.register_worker ◌>>=◌ wrap_error
  register_worker-Follows worker w ts t h listed found =
      rw (listed, found)
        ((register_for-Keeps worker t).apply
          (record w { workers = insert worker.id worker w.workers }) h)
