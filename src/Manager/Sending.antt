-- ===== src/Manager/Sending.antt =====
-- internal/adapters/manager/manager.go, lines 247 to 354: SendWork and stopTask. What a worker answers to
-- POST /tasks is an argument.
use devops_platform.Base.{
  ℕ, ◌+◌, Bool, true, false, ◌&&◌, String, List, [], ◌∷◌, ◌++◌, none, some, Map, lookup, insert,
  ◌==◌, string_eq, nat_eq, if◌then◌else◌, Result, ok, err, panic, Exec,
}
use devops_platform.Task.State.{scheduled, completed, state_eq, valid_state_transition}
use devops_platform.Task.Defs.{Task, TaskEvent, Uuid}
use devops_platform.Store.Port.{Store, Value}
use devops_platform.Store.Port as Port
use devops_platform.Scheduler.Floats.{Float}
use devops_platform.Scheduler.Node.{Node}
use devops_platform.Scheduler.Costs.{Demand, Answers}
use devops_platform.Worker.Defs.{with_status}
use devops_platform.Manager.Defs.{Manager, Item, event, task, Request, post, delete}
use devops_platform.Manager.Selection.{select_worker, write_node}

-- The answer to a POST: none at all, a status other than 201, or 201 with a body that decodes or not, and the
-- task that the variable `t` then holds, into which the body is decoded.
pub data Answer : Type 0 where
  unreachable : String → Answer
  refused : ℕ → Answer
  created : Bool → Task → Answer

-- m.WorkerTaskMap[name], the nil slice for a missing key
abbrev pub tasks_of : Map String (List Uuid) → String → List Uuid
tasks_of m name = elim (lookup name m) [ none ↦ [] | some ids ↦ ids ]

abbrev pub in_scheduled : Task → Task
in_scheduled = with_status λ s. record s { state = scheduled }

module _ {S E : Type 0} where
  abbrev pub requested : Request → Manager S E → Manager S E
  requested r m = record m { requests = m.requests ++ r ∷ [] }

  -- Both maps, before the task is stored and sent.
  abbrev pub assign : Uuid → String → Manager S E → Manager S E
  assign id name m = record m {
    worker_task_map = insert name (tasks_of m.worker_task_map name ++ id ∷ []) m.worker_task_map;
    task_worker_map = insert id name m.task_worker_map;
  }

  -- From the answer on: the task, not its event, is queued again; or `t`, whose address the task store has
  -- got, is overwritten, and `w.TaskCount++`. `share` is what becomes of the task store by the write to `t`.
  unfoldable pub answered : (Task → S → S) → Answer → Node → Task → Manager S E → Manager S E
  unfolding write_node
  answered share (unreachable e) w t m = record m { pending = m.pending ++ task t ∷ [] }
  answered share (refused status) w t m = m
  answered share (created false held) w t m = record m { task_db = share held m.task_db }
  answered share (created true held) w t m = record m {
    task_db = share held m.task_db;
    worker_nodes = write_node (record w { task_count = w.task_count + 1 }) m.worker_nodes;
  }

  -- An event for a task that has a worker: only a completion does something.
  unfoldable pub stop_existing :
      (Uuid → String)
      → String
      → TaskEvent
      → Result Value
      → Manager S E
      → Result (Unit {0}) × Manager S E
  stop_existing id_string worker te (ok (Port.task t)) m =
      if te.state == completed && valid_state_transition t.status.state te.state
      then (ok tt, requested (delete worker (id_string te.task.metadata.id)) m)
      else (ok tt, m)
  stop_existing id_string worker te (ok v) m = (ok tt, m)
  stop_existing id_string worker te (err e) m = (ok tt, m)
  stop_existing id_string worker te panic m = (panic, m)

  module _ {F : Type 0} (f : Float F) (demand : Task → Demand) (answers : Node → Answers)
      (id_string : Uuid → String) (store : Store S) (event_store : Store E)
      (reply : Request → Answer) where
    -- The task is stored as scheduled, whose error is dropped, and the event is posted.
    abbrev pub posted :
        Node → TaskEvent → Task → Result S → Manager S E → Result (Unit {0}) × Manager S E
    unfolding answered
    posted w te t (ok db) m = (
      ok tt,
      answered (store.mutate (id_string te.task.metadata.id)) (reply (post w.name te)) w t
          (requested (post w.name te) (record m { task_db = db })),
    )
    posted w te t (err e) m = (
      ok tt,
      answered (λ held db. db) (reply (post w.name te)) w t (requested (post w.name te) m),
    )
    posted w te t panic m = (panic, m)

    abbrev pub place : TaskEvent → Result Node → Manager S E → Result (Unit {0}) × Manager S E
    place te (ok w) m =
        let t = in_scheduled te.task in
        posted w te t (store.put (id_string t.metadata.id) (Port.task t) m.task_db)
          (assign te.task.metadata.id w.name m)
    place te (err e) m = (ok tt, m)
    place te panic m = (panic, m)

    -- After the event is stored.
    unfoldable pub dispatch : TaskEvent → Manager S E → Result (Unit {0}) × Manager S E
    unfolding stop_existing
    dispatch te m = elim (lookup te.task.metadata.id m.task_worker_map) [
      | some worker ↦
          stop_existing id_string worker te (store.get (id_string te.task.metadata.id) m.task_db) m
      | none ↦ let (r, m') = select_worker f demand answers id_string te.task m in place te r m'
    ]

    -- The event is taken off the queue and stored, whose error is logged.
    abbrev pub stored : TaskEvent → Result E → Manager S E → Result (Unit {0}) × Manager S E
    stored te (ok db) m = dispatch te (record m { event_db = db })
    stored te (err e) m = dispatch te m
    stored te panic m = (panic, m)

    -- `e.(task.TaskEvent)` panics at a task.
    abbrev pub take : List Item → Manager S E → Result (Unit {0}) × Manager S E
    take [] m = (ok tt, m)
    take (task t ∷ rest) m = (panic, record m { pending = rest })
    take (event te ∷ rest) m =
        stored te (event_store.put (id_string te.id) (Port.event te) m.event_db)
          (record m { pending = rest })

    unfoldable pub send_work : Exec (Manager S E) (Unit {0})
    unfolding dispatch
    send_work m = take m.pending m
