-- ===== src/Manager/Sharing.antt =====
-- What SendWork of internal/adapters/manager/manager.go leaves in the in-memory task store of
-- internal/adapters/store/store.go, which keeps the pointer to its variable `t`.
use devops_platform.Base.{
  ◌≡◌, refl, Bool, true, false, String, List, ◌∷◌, none, Map, lookup, insert, lookup-insert_self,
  ok, string_eq, nat_eq,
}
use devops_platform.Task.Defs.{Task, TaskEvent, Uuid}
use devops_platform.Store.Port.{Store}
use devops_platform.Store.Port as Port
use devops_platform.Store.Memory.Tasks.{get, put, mutate, in_memory_task_store}
use devops_platform.Scheduler.Floats.{Float}
use devops_platform.Scheduler.Node.{Node}
use devops_platform.Scheduler.Costs.{Demand, Answers}
use devops_platform.Manager.Defs.{Manager, Item, event, Request, post}
use devops_platform.Manager.Selection.{select_worker}
use devops_platform.Manager.Sending.{Answer, created, in_scheduled, answered, send_work}
use devops_platform.Manager.Outcomes.{taken, sent, send_work_places}

module _ {E F : Type 0} (f : Float F) (demand : Task → Demand) (answers : Node → Answers)
    (id_string : Uuid → String) (order : Map String Task → Map String Task) (event_store : Store E)
    (reply : Request → Answer) where
  abbrev Sender : Type 0
  Sender = Manager (Map String Task) E

  abbrev store : Store (Map String Task)
  store = in_memory_task_store order

  get-mutate-insert :
      (k : String) (t held : Task) (db : Map String Task)
      → get k (mutate k held (insert k t db)) ≡ ok (Port.task held)
  unfolding get mutate
  get-mutate-insert k t held db =
      rw (lookup-insert_self k t db, mutate)
        (rw (lookup-insert_self k held (insert k t db), get) refl)

  get-answered :
      (k : String) (b : Bool) (held t : Task) (w : Node) (m : Sender) (db : Map String Task)
      → m.task_db ≡ insert k t db
      → get k (answered (store.mutate k) (created b held) w t m).task_db ≡ ok (Port.task held)
  unfolding answered
  get-answered k true held t w m db e = rw e (get-mutate-insert k t held db)
  get-answered k false held t w m db e = rw e (get-mutate-insert k t held db)

  -- With the in-memory task store: where an event of a task with no worker yet is stored, a node is selected
  -- and the worker there answers 201, Get after SendWork gives what was decoded from that answer, and no
  -- longer the task that SendWork stored as scheduled.
  pub send_work_overwrites :
      (m m' : Sender) (te : TaskEvent) (rest : List Item) (events : E) (w : Node) (b : Bool)
      (held : Task)
      → m.pending ≡ event te ∷ rest
      → event_store.put (id_string te.id) (Port.event te) m.event_db ≡ ok events
      → lookup te.task.metadata.id m.task_worker_map ≡ none
      → select_worker f demand answers id_string te.task (taken rest events m) ≡ (ok w, m')
      → reply (post w.name te) ≡ created b held
      → get
          (id_string te.task.metadata.id)
          (send_work f demand answers id_string store event_store reply m).1.task_db
        ≡ ok (Port.task held)
  unfolding put
  send_work_overwrites m m' te rest events w b held p e l s r =
      let k = id_string te.task.metadata.id in
      let t = in_scheduled te.task in
      rw
        (
          send_work_places f demand answers id_string store event_store reply m m' te rest events w
              (insert k t m'.task_db) p e l s refl,
          r,
        )
        (get-answered k b held t w (sent te w (insert k t m'.task_db) m') m'.task_db refl)
