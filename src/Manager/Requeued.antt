-- ===== src/Manager/Requeued.antt =====
-- What becomes of a task that SendWork of internal/adapters/manager/manager.go puts on its queue where a worker does
-- not answer, whatever stands on the queue before it.
use mathlib.Core.List.{append-nil, append_assoc}
use devops_platform.Base.{
  ◌≡◌, refl, ◌∙◌, ap, sym, true, false, ◌&&◌, Bool-cases, inl, inr, String, List, [], ◌∷◌, ◌++◌,
  Option, none, some, lookup, length, ◌<◌, arith, ◌==◌, string_eq, nat_eq, Result, ok, err, panic,
  Exec, pure, continue, ◌>>=◌, ◌>>◌,
}
use devops_platform.Task.Defs.{Task, TaskEvent, Uuid}
use devops_platform.Task.State.{completed, state_eq, valid_state_transition}
use devops_platform.Store.Port.{Store, Value}
use devops_platform.Store.Port as Port
use devops_platform.Scheduler.Floats.{Float}
use devops_platform.Scheduler.Node.{Node}
use devops_platform.Scheduler.Costs.{Demand, Answers}
use devops_platform.Manager.Defs.{Manager, Item, event, task, Request, post}
use devops_platform.Manager.Selection.{select_worker}
use devops_platform.Manager.Sending.{
  Answer, unreachable, refused, created, in_scheduled, assign, answered, stop_existing, posted,
  place, dispatch, stored, send_work,
}
use devops_platform.Manager.Orderly.{select-Agrees}
use devops_platform.Manager.Outcomes.{send_work_places, taken, sent}

abbrev IsSmooth : Result (Unit {0}) → Type 0
IsSmooth (err e) = ⊥
IsSmooth r = Unit

module _ {S E : Type 0} where
  abbrev Grows : List Item → Manager S E → Type 0
  Grows items m = (more : List Item) × (m.pending ≡ items ++ more)

  -- No error, and a queue that starts with these items.
  abbrev Extends : List Item → Result (Unit {0}) × Manager S E → Type 0
  Extends items (r, m) = IsSmooth r × Grows items m

  same : (items : List Item) (m : Manager S E) → m.pending ≡ items → Grows items m
  same items m e = ([], e ∙ sym (append-nil items))

  answered-Grows :
      (share : Task → S → S) (a : Answer) (w : Node) (t : Task) (items : List Item)
      (m : Manager S E)
      → m.pending ≡ items
      → Grows items (answered share a w t m)
  unfolding answered
  answered-Grows share (unreachable e) w t items m h = (task t ∷ [], ap (λ l. l ++ task t ∷ []) h)
  answered-Grows share (refused s) w t items m h = same items m h
  answered-Grows share (created true held) w t items m h = ([], h ∙ sym (append-nil items))
  answered-Grows share (created false held) w t items m h = ([], h ∙ sym (append-nil items))

  stop_existing-Extends :
      (id_string : Uuid → String) (w : String) (te : TaskEvent) (r : Result Value)
      (items : List Item) (m : Manager S E)
      → m.pending ≡ items
      → Extends items (stop_existing id_string w te r m)
  unfolding stop_existing
  stop_existing-Extends id_string w te (ok (Port.task t)) items m h =
      elim (Bool-cases (te.state == completed && valid_state_transition t.status.state te.state)) [
        | inl b ↦ rw b (tt, ([], h ∙ sym (append-nil items)))
        | inr b ↦ rw b (tt, same items m h)
      ]
  stop_existing-Extends id_string w te (ok (Port.event e)) items m h = (tt, same items m h)
  stop_existing-Extends id_string w te (ok Port.other) items m h = (tt, same items m h)
  stop_existing-Extends id_string w te (err e) items m h = (tt, same items m h)
  stop_existing-Extends id_string w te panic items m h = (tt, same items m h)

module _ {S E F : Type 0} (f : Float F) (demand : Task → Demand) (id_string : Uuid → String)
    (store : Store S) (event_store : Store E) where
  module _ (answers : Node → Answers) (reply : Request → Answer) where
    place-Extends :
        (te : TaskEvent) (r : Result Node) (items : List Item) (m : Manager S E)
        → m.pending ≡ items
        → Extends items (place f demand answers id_string store event_store reply te r m)
    unfolding answered
    place-Extends te (ok w) items m h =
        by_put
          (store.put (id_string te.task.metadata.id) (Port.task (in_scheduled te.task)) m.task_db)
      where
        by_put :
            (r : Result S)
            → Extends items (
                posted f demand answers id_string store event_store reply w te
                  (in_scheduled te.task)
                  r
                  (assign te.task.metadata.id w.name m))
        by_put (ok db) =
            (tt, answered-Grows _ (reply (post w.name te)) w (in_scheduled te.task) items _ h)
        by_put (err e) =
            (tt, answered-Grows _ (reply (post w.name te)) w (in_scheduled te.task) items _ h)
        by_put panic = (tt, ([], h ∙ sym (append-nil items)))
    place-Extends te (err e) items m h = (tt, same items m h)
    place-Extends te panic items m h = (tt, same items m h)

    dispatch-Extends :
        (te : TaskEvent) (items : List Item) (m : Manager S E)
        → m.pending ≡ items
        → Extends items (dispatch f demand answers id_string store event_store reply te m)
    unfolding dispatch
    dispatch-Extends te items m h = by_assigned (lookup te.task.metadata.id m.task_worker_map) refl
      where
        by_assigned :
            (o : Option String)
            → lookup te.task.metadata.id m.task_worker_map ≡ o
            → Extends items (dispatch f demand answers id_string store event_store reply te m)
        by_assigned (some w) e = rw (e, dispatch) (stop_existing-Extends id_string w te _ items m h)
        by_assigned none e =
            let m' = (select_worker f demand answers id_string te.task m).1 in
            let agrees =
              select-Agrees f demand answers id_string store event_store reply te.task m in
            rw (e, dispatch) (place-Extends te _ items m' (agrees.3 ∙ h))

    stored-Extends :
        (te : TaskEvent) (r : Result E) (items : List Item) (m : Manager S E)
        → m.pending ≡ items
        → Extends items (stored f demand answers id_string store event_store reply te r m)
    stored-Extends te (ok db) items m h = dispatch-Extends te items (record m { event_db = db }) h
    stored-Extends te (err e) items m h = dispatch-Extends te items m h
    stored-Extends te panic items m h = (tt, same items m h)

    send_work-Extends :
        (te : TaskEvent) (rest : List Item) (m : Manager S E)
        → m.pending ≡ event te ∷ rest
        → Extends rest (send_work f demand answers id_string store event_store reply m)
    unfolding send_work
    send_work-Extends te rest m e =
        rw e (stored-Extends te _ rest (record m { pending = rest }) refl)

    send_work_task :
        (t : Task) (rest : List Item) (m : Manager S E)
        → m.pending ≡ task t ∷ rest
        → (send_work f demand answers id_string store event_store reply m).0 ≡ panic
    unfolding send_work
    send_work_task t rest m p = rw p refl

  -- SendWork once for each pair of what the workers and the nodes then answer, up to a panic.
  unfoldable pub sends :
      List ((Request → Answer) × (Node → Answers)) → Exec (Manager S E) (Unit {0})
  sends [] = pure tt
  sends ((reply, answers) ∷ turns) =
      send_work f demand answers id_string store event_store reply >> sends turns

  panics_at_task :
      (turns : List ((Request → Answer) × (Node → Answers))) (items more : List Item) (t : Task)
      (m : Manager S E)
      → m.pending ≡ items ++ task t ∷ more
      → length items < length turns
      → (sends turns m).0 ≡ panic
  unfolding sends ◌>>=◌
  panics_at_task [] items more t m h l = absurd (omega (arith, l))
  panics_at_task ((reply, answers) ∷ turns) [] more t m h l =
      rw (send_work_task answers reply t more m h) refl
  panics_at_task ((reply, answers) ∷ turns) (task u ∷ items) more t m h l =
      rw (send_work_task answers reply u (items ++ task t ∷ more) m h) refl
  panics_at_task ((reply, answers) ∷ turns) (event te ∷ items) more t m h l =
      by_outcome (send_work f demand answers id_string store event_store reply m)
        (send_work-Extends answers reply te (items ++ task t ∷ more) m h)
        (λ m' rest e. panics_at_task turns items rest t m' e (omega (arith, l)))
    where
      by_outcome :
          (r : Result (Unit {0}) × Manager S E)
          → Extends (items ++ task t ∷ more) r
          → ((m' : Manager S E) (rest : List Item)
              → m'.pending ≡ items ++ task t ∷ rest
              → (sends turns m').0 ≡ panic)
          → (continue r.0 (λ _. sends turns) r.1).0 ≡ panic
      by_outcome (ok u, m') (smooth, (rest, e)) rec =
          rec m' (more ++ rest) (e ∙ append_assoc items (task t ∷ more) rest)
      by_outcome (err e, m') h rec = absurd h.0
      by_outcome (panic, m') h rec = refl

  -- Where an event of a task with no worker yet is at the head of the queue and is stored, and a node is selected
  -- and the task stored, but the worker there does not answer, SendWork ends without an error; and whatever the
  -- workers and the nodes answer from then on, SendWork panics once it was called more often than there are items
  -- behind that event, if not before: what was queued again is no event.
  pub send_work_requeued :
      (answers : Node → Answers) (reply : Request → Answer) (m m' : Manager S E) (te : TaskEvent)
      (rest : List Item) (events : E) (w : Node) (db : S) (e : String)
      (turns : List ((Request → Answer) × (Node → Answers)))
      → m.pending ≡ event te ∷ rest
      → event_store.put (id_string te.id) (Port.event te) m.event_db ≡ ok events
      → lookup te.task.metadata.id m.task_worker_map ≡ none
      → select_worker f demand answers id_string te.task (taken rest events m) ≡ (ok w, m')
      → store.put (id_string te.task.metadata.id) (Port.task (in_scheduled te.task)) m'.task_db
        ≡ ok db
      → reply (post w.name te) ≡ unreachable e
      → length rest < length turns
      → let (r, next) = send_work f demand answers id_string store event_store reply m in
        (r ≡ ok tt) × ((sends turns next).0 ≡ panic)
  unfolding answered
  send_work_requeued answers reply m m' te rest events w db e turns p q l s u a n =
      rw
        (
          send_work_places f demand answers id_string store event_store reply m m' te rest events w
              db p q l s u,
          a,
        )
        (
          refl,
          panics_at_task turns rest [] (in_scheduled te.task)
              (record (sent te w db m') {
                pending = m'.pending ++ task (in_scheduled te.task) ∷ [];
              })
              (ap (λ items. items ++ task (in_scheduled te.task) ∷ []) queue) n,
        )
    where
      queue : m'.pending ≡ rest
      queue =
          sym (ap (λ r. r.1.pending) s)
          ∙ (select-Agrees f demand answers id_string store event_store reply te.task
              (taken rest events m)).3
