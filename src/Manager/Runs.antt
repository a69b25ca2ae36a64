-- ===== src/Manager/Runs.antt =====
-- Runs of the manager (internal/adapters/manager/manager.go): any sequence of its operations, with what
-- the workers and the nodes answer to each, up to a panic.
use native.Mathlib.Nat.{le_trans}
use devops_platform.Base.{
  ◌≤◌, String, List, [], ◌∷◌, Option, none, some, lookup, string_eq, nat_eq, arith, Result, ok, err,
  panic, Exec, pure, continue, ◌>>=◌, ◌>>◌,
}
use devops_platform.Task.Defs.{Task, TaskEvent, Uuid}
use devops_platform.Task.State.{state_eq}
use devops_platform.Store.Port.{Store}
use devops_platform.Scheduler.Floats.{Float}
use devops_platform.Scheduler.Node.{Node, Response}
use devops_platform.Scheduler.Costs.{Demand, Answers}
use devops_platform.Manager.Defs.{Manager, Request, manager_on, add_task}
use devops_platform.Manager.Sending.{Answer, send_work}
use devops_platform.Manager.Polling.{Poll, update_tasks, update_node_stats}
use devops_platform.Manager.Health.{do_health_checks}
use devops_platform.Manager.Assigned.{IsTidy, posts, at_most}
use devops_platform.Manager.Orderly.{agree-IsTidy, send_work-IsTidy}
use devops_platform.Manager.Spares.{refresh-Agrees, poll_workers-Spares, do_health_checks-Spares}

-- One turn of a goroutine of the manager, or a call of AddTask.
pub data Operation : Type 0 where
  add : TaskEvent → Operation
  send : (Request → Answer) → (Node → Answers) → Operation
  update : (String → Poll) → Operation
  refresh : (Node → Result Response) → Operation
  check : Operation

at_most-le : (o : Option String) → at_most o ≤ 1
at_most-le none = omega arith
at_most-le (some w) = omega arith

module _ {S E F : Type 0} (f : Float F) (demand : Task → Demand) (id_string : Uuid → String)
    (store : Store S) (event_store : Store E) where
  unfoldable pub perform : Operation → Exec (Manager S E) (Unit {0})
  perform (add te) m = (ok tt, add_task te m)
  perform (send reply answers) m = send_work f demand answers id_string store event_store reply m
  perform (update poll) m = update_tasks id_string store poll m
  perform (refresh answer) m = update_node_stats answer m
  perform check m = do_health_checks id_string store m

  unfoldable pub run : List Operation → Exec (Manager S E) (Unit {0})
  unfolding perform
  run [] = pure tt
  run (op ∷ ops) = perform op >> run ops

  perform-IsTidy : (op : Operation) (m : Manager S E) → IsTidy m → IsTidy (perform op m).1
  unfolding perform add_task update_tasks
  perform-IsTidy (add te) m h = h
  perform-IsTidy (send reply answers) m h =
      send_work-IsTidy f demand answers id_string store event_store reply m h
  perform-IsTidy (update poll) m h =
      agree-IsTidy m (update_tasks id_string store poll m).1
        (poll_workers-Spares id_string store poll m.workers m).0 h
  perform-IsTidy (refresh answer) m h =
      agree-IsTidy m (update_node_stats answer m).1 (refresh-Agrees answer m) h
  perform-IsTidy check m h =
      agree-IsTidy m (do_health_checks id_string store m).1
        (do_health_checks-Spares id_string store m).0 h

  run-IsTidy : (ops : List Operation) (m : Manager S E) → IsTidy m → IsTidy (run ops m).1
  unfolding run ◌>>=◌
  run-IsTidy [] m h = h
  run-IsTidy (op ∷ ops) m h = by_outcome (perform op m) (perform-IsTidy op m h) (run-IsTidy ops)
    where
      by_outcome :
          (r : Result (Unit {0}) × Manager S E)
          → IsTidy r.1
          → ((m' : Manager S E) → IsTidy m' → IsTidy (run ops m').1)
          → IsTidy (continue r.0 (λ _. run ops) r.1).1
      by_outcome (ok u, m') k rec = rec m' k
      by_outcome (err e, m') k rec = k
      by_outcome (panic, m') k rec = k

  manager_on-IsTidy :
      (task_db : S) (event_db : E) (workers : List String) (kind : String)
      → IsTidy (manager_on task_db event_db workers kind)
  unfolding manager_on lookup
  manager_on-IsTidy task_db event_db workers kind = record {
    agree = λ id w e. absurd (ground arith);
    once = λ id. omega arith;
    placed = tt;
  }

  -- In every run from New no task is posted to workers more than once, whatever the workers, the nodes
  -- and the stores answer.
  pub posts-run :
      (task_db : S) (event_db : E) (workers : List String) (kind : String) (ops : List Operation)
      (id : Uuid)
      → posts id (run ops (manager_on task_db event_db workers kind)).1.requests ≤ 1
  posts-run task_db event_db workers kind ops id =
      let m = (run ops (manager_on task_db event_db workers kind)).1 in
      let tidy =
        run-IsTidy ops (manager_on task_db event_db workers kind)
          (manager_on-IsTidy task_db event_db workers kind) in
      le_trans (tidy.once id) (at_most-le (lookup id m.task_worker_map))
