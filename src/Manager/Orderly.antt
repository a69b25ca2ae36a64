-- ===== src/Manager/Orderly.antt =====
-- What the operations of internal/adapters/manager/manager.go keep of the manager's books.
use devops_platform.Base.{
  ◌≡◌, refl, true, false, ◌&&◌, String, List, [], ◌∷◌, Option, none, some, lookup, ◌==◌, string_eq,
  nat_eq, Result, ok, err, panic, Bool-cases, inl, inr, subst, sym,
}
use devops_platform.Task.Defs.{Task, TaskEvent, Uuid}
use devops_platform.Task.State.{completed, state_eq, valid_state_transition}
use devops_platform.Store.Port.{Store, Value}
use devops_platform.Store.Port as Port
use devops_platform.Scheduler.Floats.{Float}
use devops_platform.Scheduler.Node.{Node}
use devops_platform.Scheduler.Costs.{Demand, Answers}
use devops_platform.Manager.Defs.{Manager, Item, event, task, Request, post}
use devops_platform.Manager.Selection.{
  Chosen, choose, candidates_of, chosen, select_from, select_worker,
}
use devops_platform.Manager.Sending.{
  Answer, unreachable, refused, created, in_scheduled, assign, requested, answered, stop_existing,
  posted, place, dispatch, stored, take, send_work,
}
use devops_platform.Manager.Assigned.{
  IsOrderly, IsTidy, delete-IsOrderly, assign-IsOrderly, post-IsOrderly,
}

-- The two managers have the same books and the same queue.
abbrev pub Agrees : {S E : Type 0} → Manager S E → Manager S E → Type 0
Agrees m m' =
    (m'.worker_task_map ≡ m.worker_task_map)
    × (m'.task_worker_map ≡ m.task_worker_map)
    × (m'.requests ≡ m.requests)
    × (m'.pending ≡ m.pending)

pub agree-IsTidy : {S E : Type 0} (m m' : Manager S E) → Agrees m m' → IsTidy m → IsTidy m'
agree-IsTidy m m' (p, q, r, _) h =
    subst (λ x. IsOrderly x m'.task_worker_map m'.requests) (sym p)
      (subst (λ x. IsOrderly m.worker_task_map x m'.requests) (sym q)
        (subst (λ x. IsOrderly m.worker_task_map m.task_worker_map x) (sym r) h))

answered-IsTidy :
    {S E : Type 0} (share : Task → S → S) (a : Answer) (w : Node) (t : Task) (m : Manager S E)
    → IsTidy m
    → IsTidy (answered share a w t m)
unfolding answered
answered-IsTidy share (unreachable e) w t m h = h
answered-IsTidy share (refused s) w t m h = h
answered-IsTidy share (created true held) w t m h = h
answered-IsTidy share (created false held) w t m h = h

stop_existing-IsTidy :
    {S E : Type 0} (id_string : Uuid → String) (w : String) (te : TaskEvent) (r : Result Value)
    (m : Manager S E)
    → IsTidy m
    → IsTidy (stop_existing id_string w te r m).1
unfolding stop_existing
stop_existing-IsTidy id_string w te (ok (Port.task t)) m h =
    elim (Bool-cases (te.state == completed && valid_state_transition t.status.state te.state)) [
      | inl b ↦ rw b (delete-IsOrderly h w (id_string te.task.metadata.id))
      | inr b ↦ rw b h
    ]
stop_existing-IsTidy id_string w te (ok (Port.event e)) m h = h
stop_existing-IsTidy id_string w te (ok Port.other) m h = h
stop_existing-IsTidy id_string w te (err e) m h = h
stop_existing-IsTidy id_string w te panic m h = h

module _ {S E F : Type 0} (f : Float F) (demand : Task → Demand) (answers : Node → Answers)
    (id_string : Uuid → String) (store : Store S) (event_store : Store E)
    (reply : Request → Answer) where
  chosen-Agrees :
      (m : Manager S E) (r : Result Chosen) → Agrees m (chosen f demand answers id_string m r).1
  chosen-Agrees m (ok c) = by_node c.node
    where
      by_node :
          (n : Option Node)
          → Agrees m
              (elim n as (λ _. Result Node × Manager S E) [
                | some n ↦ (ok n, record m { scheduler = c.scheduler; worker_nodes = c.nodes })
                | none ↦ (panic, m)
              ]).1
      by_node none = (refl, refl, refl, refl)
      by_node (some n) = (refl, refl, refl, refl)
  chosen-Agrees m (err e) = (refl, refl, refl, refl)
  chosen-Agrees m panic = (refl, refl, refl, refl)

  pub select-Agrees :
      (t : Task) (m : Manager S E) → Agrees m (select_worker f demand answers id_string t m).1
  unfolding select_worker
  select-Agrees t m = by_candidates (candidates_of f demand answers t m.scheduler m.worker_nodes)
    where
      by_candidates : (ns : List Node) → Agrees m (select_from f demand answers id_string t m ns).1
      by_candidates [] = (refl, refl, refl, refl)
      by_candidates (n ∷ ns) =
          chosen-Agrees m (choose f demand answers t m.scheduler m.worker_nodes (n ∷ ns))

  posted-IsTidy :
      (te : TaskEvent) (w : Node) (r : Result S) (m : Manager S E)
      → lookup te.task.metadata.id m.task_worker_map ≡ none
      → IsTidy m
      → IsTidy
          (posted f demand answers id_string store event_store reply w te
            (in_scheduled te.task)
            r
            (assign te.task.metadata.id w.name m)).1
  unfolding answered
  posted-IsTidy te w (ok db) m fresh h =
      answered-IsTidy (store.mutate (id_string te.task.metadata.id)) (reply (post w.name te)) w
        (in_scheduled te.task)
        (requested (post w.name te) (record (assign te.task.metadata.id w.name m) { task_db = db }))
        (post-IsOrderly h te.task.metadata.id w.name fresh te refl)
  posted-IsTidy te w (err e) m fresh h =
      answered-IsTidy (λ held db. db) (reply (post w.name te)) w (in_scheduled te.task)
        (requested (post w.name te) (assign te.task.metadata.id w.name m))
        (post-IsOrderly h te.task.metadata.id w.name fresh te refl)
  posted-IsTidy te w panic m fresh h = assign-IsOrderly h te.task.metadata.id w.name fresh

  place-IsTidy :
      (te : TaskEvent) (r : Result Node) (m : Manager S E)
      → lookup te.task.metadata.id m.task_worker_map ≡ none
      → IsTidy m
      → IsTidy (place f demand answers id_string store event_store reply te r m).1
  unfolding answered
  place-IsTidy te (ok w) m fresh h = posted-IsTidy te w _ m fresh h
  place-IsTidy te (err e) m fresh h = h
  place-IsTidy te panic m fresh h = h

  dispatch-IsTidy :
      (te : TaskEvent) (m : Manager S E)
      → IsTidy m
      → IsTidy (dispatch f demand answers id_string store event_store reply te m).1
  unfolding dispatch
  dispatch-IsTidy te m h = by_assigned (lookup te.task.metadata.id m.task_worker_map) refl
    where
      by_assigned :
          (o : Option String)
          → lookup te.task.metadata.id m.task_worker_map ≡ o
          → IsTidy (dispatch f demand answers id_string store event_store reply te m).1
      by_assigned (some w) e = rw (e, dispatch) (stop_existing-IsTidy id_string w te _ m h)
      by_assigned none e =
          let m' = (select_worker f demand answers id_string te.task m).1 in
          let agrees = select-Agrees te.task m in
          rw (e, dispatch) (place-IsTidy te _ m' (rw (agrees.1) e) (agree-IsTidy m m' agrees h))

  stored-IsTidy :
      (te : TaskEvent) (r : Result E) (m : Manager S E)
      → IsTidy m
      → IsTidy (stored f demand answers id_string store event_store reply te r m).1
  stored-IsTidy te (ok db) m h = dispatch-IsTidy te (record m { event_db = db }) h
  stored-IsTidy te (err e) m h = dispatch-IsTidy te m h
  stored-IsTidy te panic m h = h

  take-IsTidy :
      (items : List Item) (m : Manager S E)
      → IsTidy m
      → IsTidy (take f demand answers id_string store event_store reply items m).1
  take-IsTidy [] m h = h
  take-IsTidy (task t ∷ rest) m h = h
  take-IsTidy (event te ∷ rest) m h = stored-IsTidy te _ (record m { pending = rest }) h

  -- Whatever the scheduler, the stores and the workers answer, SendWork keeps the books in order: every
  -- assigned task is in the list of its worker, and only assigned tasks are posted, at most once each and
  -- to the worker that they are assigned to.
  pub send_work-IsTidy :
      (m : Manager S E)
      → IsTidy m
      → IsTidy (send_work f demand answers id_string store event_store reply m).1
  unfolding send_work
  send_work-IsTidy m h = take-IsTidy m.pending m h
