-- ===== src/Manager/Outcomes.antt =====
-- What SendWork and New of internal/adapters/manager/manager.go do, outcome by outcome.
use devops_platform.Base.{
  ◌≡◌, refl, Bool, true, false, ◌&&◌, String, concat, Bool-cases, inl, inr, List, ◌∷◌, Option, none,
  some, lookup, ◌==◌, string_eq, nat_eq, if◌then◌else◌, Result, ok, err, panic,
}
use devops_platform.Task.Defs.{Task, TaskEvent, Uuid}
use devops_platform.Task.State.{completed, state_eq, valid_state_transition}
use devops_platform.Store.Port.{Store, Value}
use devops_platform.Store.Port as Port
use devops_platform.Scheduler.Floats.{Float}
use devops_platform.Scheduler.Node.{Node}
use devops_platform.Scheduler.Costs.{Demand, Answers}
use devops_platform.Manager.Defs.{
  Manager, Item, event, Request, post, delete, manager_on, new_manager, opened, last_error,
}
use devops_platform.Manager.Selection.{select_worker}
use devops_platform.Manager.Sending.{
  Answer, in_scheduled, assign, requested, answered, stop_existing, dispatch, send_work,
}

abbrev pub is_err : {A : Type 0} → Result A → Bool
is_err (err e) = true
is_err r = false

-- New fails exactly for the persistent type with an event store that does not open, whether or not the
-- task store opens.
pub new_manager_lem :
    {S E : Type 0} (open_tasks : Result S) (open_events : Result E) (empty_tasks : S)
    (empty_events : E) (workers : List String) (kind db_type : String)
    → is_err (new_manager open_tasks open_events empty_tasks empty_events workers kind db_type)
      ≡ (db_type == "persistent" && is_err open_events)
unfolding new_manager
new_manager_lem {S = S} {E = E} open_tasks open_events empty_tasks empty_events workers kind
      db_type =
    elim (Bool-cases (db_type == "memory")) [
      | inl a ↦ rw a (rw ((string_eq.equal_iff db_type "memory").0 a) refl)
      | inr a ↦ rw a (elim (Bool-cases (db_type == "persistent")) [
        | inl b ↦ rw b (by_events open_events)
        | inr b ↦ rw b refl
      ])
    ]
  where
    by_events :
        (r : Result E)
        → is_err (elim (last_error open_tasks r) as (λ _. Result (Manager (Option S) (Option E))) [
          | some e ↦ err (concat "unable to create task store: " e)
          | none ↦ ok (manager_on (opened open_tasks) (opened r) workers kind)
        ])
          ≡ is_err r
    by_events (ok e) = refl
    by_events (err e) = refl
    by_events panic = refl

module _ {S E : Type 0} where
  -- The queue with its first item, an event, taken off and stored.
  abbrev pub taken : List Item → E → Manager S E → Manager S E
  taken rest events m = record m { pending = rest; event_db = events }

  -- The manager that sent the event to the node, before the answer.
  abbrev pub sent : TaskEvent → Node → S → Manager S E → Manager S E
  sent te w db m =
      requested (post w.name te) (record (assign te.task.metadata.id w.name m) { task_db = db })

module _ {S E F : Type 0} (f : Float F) (demand : Task → Demand) (answers : Node → Answers)
    (id_string : Uuid → String) (store : Store S) (event_store : Store E)
    (reply : Request → Answer) where
  -- An event whose task has no worker yet: where both stores accept and a node is selected, SendWork
  -- assigns the task to the node, stores it as scheduled and posts the event there once, and the rest
  -- depends on the answer.
  pub send_work_places :
      (m m' : Manager S E) (te : TaskEvent) (rest : List Item) (events : E) (w : Node) (db : S)
      → m.pending ≡ event te ∷ rest
      → event_store.put (id_string te.id) (Port.event te) m.event_db ≡ ok events
      → lookup te.task.metadata.id m.task_worker_map ≡ none
      → select_worker f demand answers id_string te.task (taken rest events m) ≡ (ok w, m')
      → store.put (id_string te.task.metadata.id) (Port.task (in_scheduled te.task)) m'.task_db
        ≡ ok db
      → send_work f demand answers id_string store event_store reply m ≡ (
        ok tt,
        answered
            (store.mutate (id_string te.task.metadata.id))
            (reply (post w.name te))
            w
            (in_scheduled te.task)
            (sent te w db m'),
      )
  unfolding send_work dispatch answered
  send_work_places m m' te rest events w db p e l s q = rw (p, e, l, dispatch, s, q) refl

  -- An event whose task has a worker that is stored as a task is never posted: SendWork only tells the
  -- worker to delete the task, and only for a completion that the table allows.
  pub send_work_stops :
      (m : Manager S E) (te : TaskEvent) (rest : List Item) (events : E) (worker : String)
      (t : Task)
      → m.pending ≡ event te ∷ rest
      → event_store.put (id_string te.id) (Port.event te) m.event_db ≡ ok events
      → lookup te.task.metadata.id m.task_worker_map ≡ some worker
      → store.get (id_string te.task.metadata.id) m.task_db ≡ ok (Port.task t)
      → send_work f demand answers id_string store event_store reply m ≡ (
          if te.state == completed && valid_state_transition t.status.state te.state
          then (
            ok tt,
            requested (delete worker (id_string te.task.metadata.id)) (taken rest events m),
          )
          else (ok tt, taken rest events m))
  unfolding send_work dispatch stop_existing
  send_work_stops m te rest events worker t p e l g = rw (p, e, l, dispatch, g) refl
