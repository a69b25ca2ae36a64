-- ===== src/Manager/Polling.antt =====
-- internal/adapters/manager/manager.go, lines 111 to 183: updateTasks, over what the workers answer to
-- GET /tasks, and UpdateNodeStats.
use devops_platform.Base.{
  ℕ, String, List, [], ◌∷◌, ◌==◌, nat_eq, if◌then◌else◌, Result, ok, err, panic, Exec, pure, ◌>>◌,
}
use devops_platform.Task.Defs.{Task, Uuid}
use devops_platform.Store.Port.{Store, Value}
use devops_platform.Store.Port as Port
use devops_platform.Scheduler.Node.{Node, Response, get_stats}
use devops_platform.Worker.Defs.{with_status}
use devops_platform.Manager.Defs.{Manager}

-- The answer to GET /tasks: none, or a status with the tasks that were decoded, which are those before
-- an error of the decoder.
pub data Poll : Type 0 where
  unreachable : String → Poll
  answered : ℕ → List Task → Poll

-- The stored task with what the worker reports: any state, with no test of the transition.
unfoldable pub merged : Task → Task → Task
merged reported = with_status λ s. record s {
  state = reported.status.state;
  start_time = reported.status.start_time;
  finish_time = reported.status.finish_time;
  container_id = reported.status.container_id;
}

-- A node in front of the nodes after it.
abbrev pub prepend : Node → Result (List Node) → Result (List Node)
prepend n (ok ns) = ok (n ∷ ns)
prepend n (err e) = err e
prepend n panic = panic

-- One round of UpdateNodeStats: an error of GetStats is logged.
unfoldable pub refresh_nodes : (Node → Result Response) → List Node → Result (List Node)
refresh_nodes answer [] = ok []
refresh_nodes answer (n ∷ ns) =
    let rest = refresh_nodes answer ns in
    elim (get_stats (answer n) n) [
      | ok (n', s) ↦ prepend n' rest
      | err e ↦ prepend n rest
      | panic ↦ panic
    ]

module _ {S E : Type 0} where
  -- m.TaskDb.Put, whose error is dropped.
  abbrev pub put_back : Result S → Manager S E → Result (Unit {0}) × Manager S E
  put_back (ok db) m = (ok tt, record m { task_db = db })
  put_back (err e) m = (ok tt, m)
  put_back panic m = (panic, m)

  module _ (id_string : Uuid → String) (store : Store S) where
    abbrev pub update_found : Task → Result Value → Manager S E → Result (Unit {0}) × Manager S E
    unfolding merged
    update_found t (ok (Port.task stored)) m =
        put_back (store.put (id_string stored.metadata.id) (Port.task (merged t stored)) m.task_db)
          m
    update_found t (ok v) m = (ok tt, m)
    update_found t (err e) m = (ok tt, m)
    update_found t panic m = (panic, m)

    unfoldable pub update_task : Task → Exec (Manager S E) (Unit {0})
    update_task t m = update_found t (store.get (id_string t.metadata.id) m.task_db) m

    unfoldable pub update_all : List Task → Exec (Manager S E) (Unit {0})
    unfolding update_task
    update_all [] = pure tt
    update_all (t ∷ ts) = update_task t >> update_all ts

    unfoldable pub update_from : Poll → Exec (Manager S E) (Unit {0})
    update_from (unreachable e) = pure tt
    update_from (answered status ts) = if status == 200 then update_all ts else pure tt

    -- The loop over m.Workers.
    unfoldable pub poll_workers : (String → Poll) → List String → Exec (Manager S E) (Unit {0})
    poll_workers poll [] = pure tt
    poll_workers poll (w ∷ ws) = update_from (poll w) >> poll_workers poll ws

    unfoldable pub update_tasks : (String → Poll) → Exec (Manager S E) (Unit {0})
    unfolding poll_workers
    update_tasks poll m = poll_workers poll m.workers m

  unfoldable pub update_node_stats : (Node → Result Response) → Exec (Manager S E) (Unit {0})
  unfolding refresh_nodes
  update_node_stats answer m = elim (refresh_nodes answer m.worker_nodes) [
    | ok ns ↦ (ok tt, record m { worker_nodes = ns })
    | err e ↦ (ok tt, m)
    | panic ↦ (panic, m)
  ]
