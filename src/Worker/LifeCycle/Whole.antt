-- ===== src/Worker/LifeCycle/Whole.antt =====
-- The methods of internal/adapters/worker/worker_service.go one after the other on one task, over the
-- in-memory store: createContainer, RegisterWorker and processTaskOutput.
use devops_platform.Base.{
  ℕ, ◌≡◌, refl, ◌∙◌, true, String, List, [], ◌∷◌, ◌++◌, some, Map, lookup, insert,
  lookup-insert_self, insert-insert, ok, All, string_eq, beq_refl,
}
use devops_platform.Task.State.{creating, scheduled, running, completed, valid_state_transition}
use devops_platform.Task.Defs.{Task, Uuid}
use devops_platform.Store.Port.{Store, task}
use devops_platform.Store.Memory.Tasks.{get, put, list, in_memory_task_store}
use devops_platform.Sandbox.Port.{SandboxService}
use devops_platform.Sandbox.Factory.{Constructors}
use devops_platform.Worker.Defs.{WorkerService, WorkerInstance, CommandOutput, with_state}
use devops_platform.Worker.Create.{create_container, sandbox_service, sandboxed}
use devops_platform.Worker.Running.{register_worker, process_task_output}
use devops_platform.Worker.Results.{create_container_made, in_creating, in_container}
use devops_platform.Worker.Registered.{register_worker_starts}
use devops_platform.Worker.LifeCycle.Found.{values, IsRange, IsFree, find-insert}
use devops_platform.Worker.LifeCycle.Outputs.{IsRunning, outputs_complete}

module _ (order : Map String Task → Map String Task) (id_string : Uuid → String)
    (constructors : Constructors) where
  abbrev store : Store (Map String Task)
  store = in_memory_task_store order

  abbrev Service : Type 0
  Service = WorkerService (Map String Task)

  -- The task with its container.
  abbrev scheduled_in : String → SandboxService → Task → Task
  scheduled_in id service t = in_container id (sandboxed service (in_creating t))

  container_created :
      (t : Task) (w : Service) (service : SandboxService) (id : String)
      → valid_state_transition t.status.state creating ≡ true
      → sandbox_service store id_string constructors (in_creating t) ≡ ok service
      → (service.create t.spec.sandbox_config).0 ≡ ok id
      → ((create_container store id_string constructors t w).0 ≡ ok tt)
        × ((create_container store id_string constructors t w).1.db
            ≡ insert (id_string t.metadata.id) (scheduled_in id service t) w.db)
  unfolding put
  container_created t w service id v f c =
      let k = id_string t.metadata.id in
      let (done, db) =
        create_container_made store id_string constructors t w service id _ _ v refl f c refl in
      (done, db ∙ insert-insert k (in_creating t) (scheduled_in id service t) w.db)

  worker_registered :
      (worker : WorkerInstance) (t : Task) (w : Service) (m : Map String Task)
      → IsRange order
      → w.db ≡ insert (id_string t.metadata.id) t m
      → t.status.state ≡ scheduled
      → t.status.container_id ≡ worker.id
      → IsFree worker.id m
      → worker.is_healthy ≡ true
      → ((register_worker store id_string worker w).0 ≡ ok tt)
        × (lookup (id_string t.metadata.id) (register_worker store id_string worker w).1.db
            ≡ some (with_state running "Executing command..." t))
  unfolding put list
  worker_registered worker t w m range db s c free healthy =
      let k = id_string t.metadata.id in
      let (done, after, _, _) =
        register_worker_starts store id_string worker w (values (order (insert k t m))) t _ _
          (rw db refl) (find-insert order k t worker.id m range (rw c (beq_refl worker.id)) free) s
          healthy refl refl in
      (done, rw after (lookup-insert_self k _ _))

  -- Where a range over the store's map gives what it holds, the task may go to `creating`, its sandbox service
  -- is made and gives the container the identifier of a healthy worker, in whose container no stored task
  -- runs, and the command reports `running` any number of times and then `completed`: createContainer,
  -- RegisterWorker and processTaskOutput, one after the other, succeed, and the same task is then
  -- stored as completed, in that container, with the time of the last output as its end.
  pub task_completes :
      (t : Task) (w : Service) (service : SandboxService) (worker : WorkerInstance)
      (outs : List (ℕ × CommandOutput)) (now : ℕ) (last : CommandOutput)
      → IsRange order
      → valid_state_transition t.status.state creating ≡ true
      → sandbox_service store id_string constructors (in_creating t) ≡ ok service
      → (service.create t.spec.sandbox_config).0 ≡ ok worker.id
      → IsFree worker.id w.db
      → worker.is_healthy ≡ true
      → All IsRunning outs
      → last.state ≡ "completed"
      → let key = id_string t.metadata.id in
        let made = create_container store id_string constructors t w in
        let started = register_worker store id_string worker made.1 in
        let ended = process_task_output store (outs ++ (now, last) ∷ []) key started.1 in
        (made.0 ≡ ok tt)
        × (started.0 ≡ ok tt)
        × (ended.0 ≡ ok tt)
        × (t' : Task) × (get key ended.1.db ≡ ok (task t'))
        × (t'.status.state ≡ completed)
        × (t'.status.finish_time ≡ some now)
        × (t'.status.container_id ≡ worker.id)
        × (t'.metadata ≡ t.metadata)
  unfolding get
  task_completes t w service worker outs now last range v f c free healthy running_outs word =
      let (made, db) = container_created t w service worker.id v f c in
      let t1 = scheduled_in worker.id service t in
      let (started, stored) =
        worker_registered worker t1 (create_container store id_string constructors t w).1 w.db range
          db refl refl free healthy in
      let (ended, t', found, state, time, same) =
        outputs_complete order outs now last (id_string t.metadata.id)
          (with_state running "Executing command..." t1) _ running_outs word stored refl in
      (made, started, ended, t', rw found refl, state, time, same.2, same.0)
