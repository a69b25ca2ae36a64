-- ===== src/Worker/Follows/Sandboxed.antt =====
-- createContainer, runTask and StopTask of internal/adapters/worker/worker_service.go against the life
-- cycle of a task.
use devops_platform.Base.{ℕ, refl, String}
use devops_platform.Task.State.{creating, scheduled, stopping, completed, valid_state_transition}
use devops_platform.Task.Graph.{here, one, edge-of-valid}
use devops_platform.Task.Defs.{Task, Uuid}
use devops_platform.Store.Port.{Store, IsTaskStore}
use devops_platform.Sandbox.Factory.{Constructors}
use devops_platform.Worker.Defs.{WorkerService, with_state, with_status}
use devops_platform.Worker.Create
use devops_platform.Worker.Stopping
use devops_platform.Worker.Follows.Rules.{
  Follows, Keeps, Keeps-pure, Keeps-bind, Keeps-wrap, Keeps-ignore, Keeps-on_error, Keeps-if,
  Keeps-notify, Keeps-put_task, Keeps-fail_task, Keeps-raise, Keeps-from,
}

module _ {S : Type 0} {store : Store S} {IsSound : S → Type 0} {init : S}
    (laws : IsTaskStore store IsSound init) (id_string : Uuid → String)
    (constructors : Constructors) where
  schedule_container-Keeps :
      (t : Task) (container_id : String)
      → Keeps laws t.status.state
          (id_string t.metadata.id)
          (Create.schedule_container store id_string constructors t container_id)
  unfolding Create.schedule_container
  schedule_container-Keeps t container_id =
      Keeps-if laws (valid_state_transition t.status.state scheduled) _ _
        (λ v.
          Keeps-bind laws _ _
            (Keeps-wrap laws _ _
              (Keeps-put_task laws id_string _ (one (edge-of-valid t.status.state scheduled v))))
            λ _. Keeps-notify laws _ _)
        λ _.
          Keeps-bind laws _ _ (Keeps-fail_task laws id_string t _ here) λ _. Keeps-raise laws _ _ _

  pub create_container-Keeps :
      (t : Task)
      → Keeps laws t.status.state
          (id_string t.metadata.id)
          (Create.create_container store id_string constructors t)
  unfolding Create.create_container
  create_container-Keeps t =
      Keeps-if laws (valid_state_transition t.status.state creating) _ _
        (λ v.
          let to_creating = one (edge-of-valid t.status.state creating v) in
          Keeps-bind laws _ _ (Keeps-wrap laws _ _ (Keeps-put_task laws id_string _ to_creating))
            λ _.
              Keeps-bind laws _ _
                (Keeps-on_error laws _ _ (Keeps-pure laws _ (λ w. refl))
                  λ e. Keeps-fail_task laws id_string _ _ to_creating)
                λ service.
                  Keeps-bind laws _ _
                    (Keeps-on_error laws _ _ (Keeps-pure laws _ (λ w. refl))
                      λ e. Keeps-fail_task laws id_string _ _ to_creating)
                    λ container_id. Keeps-from laws _ to_creating (
                      schedule_container-Keeps
                        (Create.sandboxed service
                          (with_status (λ s. record s { state = creating }) t))
                        container_id))
        λ _. Keeps-raise laws _ _ _

  pub run_task-Keeps :
      (t : Task)
      → Keeps laws t.status.state
          (id_string t.metadata.id)
          (Create.run_task store id_string constructors t)
  unfolding Create.run_task
  run_task-Keeps t =
      Keeps-bind laws _ _ (Keeps-ignore laws _ (create_container-Keeps t))
        λ _. Keeps-pure laws _ (λ w. refl)

  stopped-Keeps :
      (now : ℕ) (t : Task)
      → Keeps laws t.status.state
          (id_string t.metadata.id)
          (Stopping.stopped store id_string constructors now t)
  unfolding Stopping.stopped
  stopped-Keeps now t =
      Keeps-if laws (valid_state_transition t.status.state completed) _ _
        (λ v.
          Keeps-bind laws _ _
            (Keeps-wrap laws _ _
              (Keeps-put_task laws id_string _ (one (edge-of-valid t.status.state completed v))))
            λ _. Keeps-bind laws _ _ (Keeps-notify laws _ _) λ _. Keeps-pure laws _ (λ w. refl))
        λ _.
          Keeps-bind laws _ _ (Keeps-fail_task laws id_string t _ here) λ _. Keeps-raise laws _ _ _

  pub stop_task-Keeps :
      (now : ℕ) (t : Task)
      → Keeps laws t.status.state
          (id_string t.metadata.id)
          (Stopping.stop_task store id_string constructors now t)
  unfolding Stopping.stop_task
  stop_task-Keeps now t =
      Keeps-if laws (valid_state_transition t.status.state stopping) _ _
        (λ v.
          let to_stopping = one (edge-of-valid t.status.state stopping v) in
          Keeps-bind laws _ _ (Keeps-wrap laws _ _ (Keeps-put_task laws id_string _ to_stopping))
            λ _.
              Keeps-bind laws _ _
                (Keeps-on_error laws _ _ (Keeps-pure laws _ (λ w. refl))
                  λ e. Keeps-fail_task laws id_string _ _ to_stopping)
                λ service.
                  Keeps-bind laws _ _
                    (Keeps-on_error laws _ _ (Keeps-pure laws _ (λ w. refl))
                      λ e. Keeps-fail_task laws id_string _ _ to_stopping)
                    λ _.
                      Keeps-from laws _ to_stopping
                        (stopped-Keeps now (with_state stopping "Stopping container..." t)))
        λ _. Keeps-raise laws _ _ _

  -- createContainer, whatever the sandbox service answers, changes the store at the task's key only, and
  -- only to a task whose state is reached from the argument's by allowed transitions.
  pub create_container-Follows :
      (t : Task) (w : WorkerService S)
      → IsSound w.db
      → Follows laws t.status.state
          (id_string t.metadata.id)
          w.db
          (Create.create_container store id_string constructors t w).1.db
  create_container-Follows t = (create_container-Keeps t).apply

  -- So does runTask.
  pub run_task-Follows :
      (t : Task) (w : WorkerService S)
      → IsSound w.db
      → Follows laws t.status.state
          (id_string t.metadata.id)
          w.db
          (Create.run_task store id_string constructors t w).1.db
  run_task-Follows t = (run_task-Keeps t).apply

  -- StopTask, whatever the sandbox service answers, changes the store at the task's key only, and only to
  -- a task whose state is reached from the argument's by allowed transitions.
  pub stop_task-Follows :
      (now : ℕ) (t : Task) (w : WorkerService S)
      → IsSound w.db
      → Follows laws t.status.state
          (id_string t.metadata.id)
          w.db
          (Stopping.stop_task store id_string constructors now t w).1.db
  stop_task-Follows now t = (stop_task-Keeps now t).apply
