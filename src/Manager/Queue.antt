-- ===== src/Manager/Queue.antt =====
-- What the queue `Pending` of internal/adapters/manager/manager.go holds: SendWork asserts that it is a
-- task.TaskEvent, and itself puts a task.Task there.
use devops_platform.Base.{
  ◌≡◌, refl, sym, subst, true, false, ◌&&◌, Bool-cases, inl, inr, String, List, [], ◌∷◌, ◌++◌,
  Option, none, some, All, lookup, ◌==◌, string_eq, nat_eq, Result, ok, err, panic, continue, ◌>>=◌,
}
use devops_platform.Task.Defs.{Task, TaskEvent, Uuid}
use devops_platform.Task.State.{completed, state_eq, valid_state_transition}
use devops_platform.Store.Port.{Store, Value}
use devops_platform.Store.Port as Port
use devops_platform.Scheduler.Floats.{Float}
use devops_platform.Scheduler.Node.{Node}
use devops_platform.Scheduler.Costs.{Demand, Answers}
use devops_platform.Manager.Defs.{Manager, Item, event, task, Request, post, manager_on, add_task}
use devops_platform.Manager.Selection.{select_worker}
use devops_platform.Manager.Sending.{
  Answer, unreachable, refused, created, in_scheduled, assign, answered, stop_existing, posted,
  place, dispatch, stored, take, send_work,
}
use devops_platform.Manager.Polling.{update_tasks, update_node_stats}
use devops_platform.Manager.Health.{do_health_checks}
use devops_platform.Manager.Orderly.{select-Agrees}
use devops_platform.Manager.Runs.{Operation, add, send, update, refresh, check, perform, run}
use devops_platform.Manager.Spares.{refresh-Agrees, poll_workers-Spares, do_health_checks-Spares}

abbrev pub IsEvent : Item → Type 0
IsEvent (event te) = Unit
IsEvent (task t) = ⊥

-- A worker that is sent a POST answers it.
abbrev IsHeard : Answer → Type 0
IsHeard (unreachable e) = ⊥
IsHeard a = Unit

abbrev pub AnswersAll : Operation → Type 0
AnswersAll (send reply answers) = (r : Request) → IsHeard (reply r)
AnswersAll op = Unit

abbrev pub HoldsEvents : {S E : Type 0} → Manager S E → Type 0
HoldsEvents m = All IsEvent m.pending

All-IsEvent-snoc :
    (items : List Item) (te : TaskEvent) → All IsEvent items → All IsEvent (items ++ event te ∷ [])
All-IsEvent-snoc [] te h = (tt, tt)
All-IsEvent-snoc (x ∷ xs) te h = (h.0, All-IsEvent-snoc xs te h.1)

module _ {S E : Type 0} where
  same-HoldsEvents : (m m' : Manager S E) → m'.pending ≡ m.pending → HoldsEvents m → HoldsEvents m'
  same-HoldsEvents m m' e h = subst (All IsEvent) (sym e) h

  answered-HoldsEvents :
      (share : Task → S → S) (a : Answer) (w : Node) (t : Task) (m : Manager S E)
      → IsHeard a
      → HoldsEvents m
      → HoldsEvents (answered share a w t m)
  unfolding answered
  answered-HoldsEvents share (unreachable e) w t m a h = absurd a
  answered-HoldsEvents share (refused s) w t m a h = h
  answered-HoldsEvents share (created true held) w t m a h = h
  answered-HoldsEvents share (created false held) w t m a h = h

  stop_existing-HoldsEvents :
      (id_string : Uuid → String) (w : String) (te : TaskEvent) (r : Result Value) (m : Manager S E)
      → HoldsEvents m
      → HoldsEvents (stop_existing id_string w te r m).1
  unfolding stop_existing
  stop_existing-HoldsEvents id_string w te (ok (Port.task t)) m h =
      elim (Bool-cases (te.state == completed && valid_state_transition t.status.state te.state)) [
        | inl b ↦ rw b h
        | inr b ↦ rw b h
      ]
  stop_existing-HoldsEvents id_string w te (ok (Port.event e)) m h = h
  stop_existing-HoldsEvents id_string w te (ok Port.other) m h = h
  stop_existing-HoldsEvents id_string w te (err e) m h = h
  stop_existing-HoldsEvents id_string w te panic m h = h

module _ {S E F : Type 0} (f : Float F) (demand : Task → Demand) (id_string : Uuid → String)
    (store : Store S) (event_store : Store E) where
  module _ (answers : Node → Answers) (reply : Request → Answer)
      (heard : (r : Request) → IsHeard (reply r)) where
    place-HoldsEvents :
        (te : TaskEvent) (r : Result Node) (m : Manager S E)
        → HoldsEvents m
        → HoldsEvents (place f demand answers id_string store event_store reply te r m).1
    unfolding answered
    place-HoldsEvents te (ok w) m h =
        by_put
          (store.put (id_string te.task.metadata.id) (Port.task (in_scheduled te.task)) m.task_db)
      where
        by_put :
            (r : Result S)
            → HoldsEvents
                (posted f demand answers id_string store event_store reply w te
                  (in_scheduled te.task)
                  r
                  (assign te.task.metadata.id w.name m)).1
        by_put (ok db) =
            answered-HoldsEvents _ (reply (post w.name te)) w (in_scheduled te.task) _
              (heard (post w.name te)) h
        by_put (err e) =
            answered-HoldsEvents _ (reply (post w.name te)) w (in_scheduled te.task) _
              (heard (post w.name te)) h
        by_put panic = h
    place-HoldsEvents te (err e) m h = h
    place-HoldsEvents te panic m h = h

    dispatch-HoldsEvents :
        (te : TaskEvent) (m : Manager S E)
        → HoldsEvents m
        → HoldsEvents (dispatch f demand answers id_string store event_store reply te m).1
    unfolding dispatch
    dispatch-HoldsEvents te m h = by_assigned (lookup te.task.metadata.id m.task_worker_map) refl
      where
        by_assigned :
            (o : Option String)
            → lookup te.task.metadata.id m.task_worker_map ≡ o
            → HoldsEvents (dispatch f demand answers id_string store event_store reply te m).1
        by_assigned (some w) e = rw (e, dispatch) (stop_existing-HoldsEvents id_string w te _ m h)
        by_assigned none e =
            let m' = (select_worker f demand answers id_string te.task m).1 in
            let agrees =
              select-Agrees f demand answers id_string store event_store reply te.task m in
            rw (e, dispatch) (place-HoldsEvents te _ m' (same-HoldsEvents m m' agrees.3 h))

    stored-HoldsEvents :
        (te : TaskEvent) (r : Result E) (m : Manager S E)
        → HoldsEvents m
        → HoldsEvents (stored f demand answers id_string store event_store reply te r m).1
    stored-HoldsEvents te (ok db) m h = dispatch-HoldsEvents te (record m { event_db = db }) h
    stored-HoldsEvents te (err e) m h = dispatch-HoldsEvents te m h
    stored-HoldsEvents te panic m h = h

    take-HoldsEvents :
        (items : List Item) (m : Manager S E)
        → All IsEvent items
        → HoldsEvents m
        → HoldsEvents (take f demand answers id_string store event_store reply items m).1
    take-HoldsEvents [] m h k = k
    take-HoldsEvents (task t ∷ rest) m h k = absurd h.0
    take-HoldsEvents (event te ∷ rest) m h k =
        stored-HoldsEvents te _ (record m { pending = rest }) h.1

  perform-HoldsEvents :
      (op : Operation) (m : Manager S E)
      → AnswersAll op
      → HoldsEvents m
      → HoldsEvents (perform f demand id_string store event_store op m).1
  unfolding perform add_task update_tasks send_work
  perform-HoldsEvents (add te) m a h = All-IsEvent-snoc m.pending te h
  perform-HoldsEvents (send reply answers) m a h = take-HoldsEvents answers reply a m.pending m h h
  perform-HoldsEvents (update poll) m a h =
      same-HoldsEvents m (update_tasks id_string store poll m).1
        (poll_workers-Spares id_string store poll m.workers m).0.3 h
  perform-HoldsEvents (refresh answer) m a h =
      same-HoldsEvents m (update_node_stats answer m).1 (refresh-Agrees answer m).3 h
  perform-HoldsEvents check m a h =
      same-HoldsEvents m (do_health_checks id_string store m).1
        (do_health_checks-Spares id_string store m).0.3 h

  run-HoldsEvents :
      (ops : List Operation) (m : Manager S E)
      → All AnswersAll ops
      → HoldsEvents m
      → HoldsEvents (run f demand id_string store event_store ops m).1
  unfolding run ◌>>=◌
  run-HoldsEvents [] m a h = h
  run-HoldsEvents (op ∷ ops) m a h =
      by_outcome (perform f demand id_string store event_store op m)
        (perform-HoldsEvents op m a.0 h) (λ m'. run-HoldsEvents ops m' a.1)
    where
      by_outcome :
          (r : Result (Unit {0}) × Manager S E)
          → HoldsEvents r.1
          → ((m' : Manager S E)
              → HoldsEvents m'
              → HoldsEvents (run f demand id_string store event_store ops m').1)
          → HoldsEvents (continue r.0 (λ _. run f demand id_string store event_store ops) r.1).1
      by_outcome (ok u, m') k rec = rec m' k
      by_outcome (err e, m') k rec = k
      by_outcome (panic, m') k rec = k

  -- In every run from New in which every POST to a worker is answered, the queue holds events only, which is
  -- what SendWork asserts of its head.
  pub queue-HoldsEvents :
      (task_db : S) (event_db : E) (workers : List String) (kind : String) (ops : List Operation)
      → All AnswersAll ops
      → HoldsEvents
          (run f demand id_string store event_store ops
            (manager_on task_db event_db workers kind)).1
  unfolding manager_on
  queue-HoldsEvents task_db event_db workers kind ops a =
      run-HoldsEvents ops (manager_on task_db event_db workers kind) a tt
