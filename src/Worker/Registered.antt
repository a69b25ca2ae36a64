-- ===== src/Worker/Registered.antt =====
-- RegisterWorker of internal/adapters/worker/worker_service.go for the worker of a scheduled task.
use devops_platform.Base.{
  ◌≡◌, refl, String, true, List, [], ◌∷◌, ◌++◌, some, insert, Result, ok, ◌>>=◌, ignore_error,
  wrap_error, string_eq, arith,
}
use devops_platform.Task.State.{scheduled, starting, running, state_eq, valid_state_transition}
use devops_platform.Task.Defs.{Task, Uuid}
use devops_platform.Store.Port.{Store, task, tasks}
use devops_platform.Worker.Defs.{
  WorkerService, WorkerInstance, with_state, notify_observers, put_task, effective_timeout,
}
use devops_platform.Worker.Results.{start_task_runs}
use devops_platform.Worker.Running.{find_by_container, register_for, register_worker, start_task}

scheduled_starting : valid_state_transition scheduled starting ≡ true
unfolding valid_state_transition
scheduled_starting = refl

starting_running : valid_state_transition starting running ≡ true
unfolding valid_state_transition
starting_running = refl

module _ {S : Type 0} (store : Store S) (id_string : Uuid → String) where
  abbrev in_starting : Task → Task
  in_starting = with_state starting "Worker is healthy, starting task"

  abbrev in_running : Task → Task
  in_running = with_state running "Executing command..."

  abbrev Starts : Task → Result (Unit {0}) × WorkerService S → WorkerService S → S → Type 0
  Starts t (r, w') w s =
      (r ≡ ok tt)
      × (w'.db ≡ s)
      × (w'.workers ≡ w.workers)
      × (w'.executions
          ≡ w.executions ++ record { task = in_running t; timeout = effective_timeout t } ∷ [])

  start_task-workers :
      (t : Task) (w : WorkerService S) (s : S)
      → valid_state_transition t.status.state running ≡ true
      → store.put (id_string t.metadata.id) (task (in_running t)) w.db ≡ ok s
      → (start_task store id_string t w).1.workers ≡ w.workers
  unfolding start_task put_task notify_observers ◌>>=◌ wrap_error
  start_task-workers t w s v p = ground arith

  register_for-Starts :
      (worker : WorkerInstance) (w : WorkerService S) (t : Task) (s1 s2 : S)
      → t.status.state ≡ scheduled
      → worker.is_healthy ≡ true
      → store.put (id_string t.metadata.id) (task (in_starting t)) w.db ≡ ok s1
      → store.put (id_string t.metadata.id) (task (in_running t)) s1 ≡ ok s2
      → Starts t (register_for store id_string worker (some t) w) w s2
  unfolding register_for put_task ◌>>=◌ ignore_error wrap_error effective_timeout
  register_for-Starts worker w t s1 s2 s h p1 p2 = ground (
    arith,
    scheduled_starting,
    start_task_runs store id_string (in_starting t) (record w { db = s1 }) s2 starting_running p2,
    start_task-workers (in_starting t) (record w { db = s1 }) s2 starting_running p2,
  )

  pub register_worker_starts :
      (worker : WorkerInstance) (w : WorkerService S) (ts : List Task) (t : Task) (s1 s2 : S)
      → store.list w.db ≡ ok (tasks ts)
      → find_by_container worker.id ts ≡ some t
      → t.status.state ≡ scheduled
      → worker.is_healthy ≡ true
      → store.put
          (id_string t.metadata.id)
          (task (with_state starting "Worker is healthy, starting task" t))
          w.db
        ≡ ok s1
      → store.put (id_string t.metadata.id) (task (with_state running "Executing command..." t)) s1
        ≡ ok s2
      → ((register_worker store id_string worker w).0 ≡ ok tt)
        × ((register_worker store id_string worker w).1.db ≡ s2)
        × ((register_worker store id_string worker w).1.workers ≡ insert worker.id worker w.workers)
        × ((register_worker store id_string worker w).1.executions
            ≡ w.executions
              ++ record {
                task = with_state running "Executing command..." t;
                timeout = effective_timeout t;
              }
                ∷ [])
  unfolding register_worker ◌>>=◌ wrap_error
  register_worker_starts worker w ts t s1 s2 l f s h p1 p2 =
      rw (l, f)
        (register_for-Starts worker (record w { workers = insert worker.id worker w.workers }) t s1
          s2 s h p1 p2)
