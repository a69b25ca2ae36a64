-- ===== src/Manager/Known.antt =====
-- To which workers the manager of internal/adapters/manager/manager.go talks: what every node, every assignment
-- and every request is about.
use devops_platform.Base.{
  ◌+◌, Bool, ◌≡◌, refl, ◌∙◌, sym, subst, true, false, ◌&&◌, Bool-cases, inl, inr, String, List, [],
  ◌∷◌, ◌++◌, Option, none, some, All, lookup, lookup-insert, ◌==◌, string_eq, nat_eq, if◌then◌else◌,
  Result, ok, err, panic,
}
use devops_platform.Task.Defs.{Task, TaskEvent, Uuid}
use devops_platform.Task.State.{completed, state_eq, valid_state_transition}
use devops_platform.Store.Port.{Store, Value}
use devops_platform.Store.Port as Port
use devops_platform.Scheduler.Floats.{Float}
use devops_platform.Scheduler.Node.{Node}
use devops_platform.Scheduler.Costs.{Demand, Answers}
use devops_platform.Scheduler.Names.{Named}
use devops_platform.Manager.Defs.{Manager, Item, event, task, Request, post, delete}
use devops_platform.Manager.Selection.{
  Chosen, choose, candidates_of, chosen, select_from, select_worker,
}
use devops_platform.Manager.Sending.{
  Answer, unreachable, refused, created, in_scheduled, assign, requested, answered, stop_existing,
  posted, place, dispatch, stored, take, send_work,
}
use devops_platform.Manager.Named.{
  Named-write_node, HasName, IsChosen, choose-IsChosen, candidates-Named,
}

abbrev pub target : Request → String
target (post worker te) = worker
target (delete worker id) = worker

-- The nodes, the assignments and the requests are of workers of some kind.
pub record IsKnown (P : String → Type 0) {S E : Type 0} (m : Manager S E) : Type 0 where
  pub nodes : Named P m.worker_nodes
  pub assigned : (id : Uuid) (w : String) → lookup id m.task_worker_map ≡ some w → P w
  pub sent : All (λ r. P (target r)) m.requests

module _ (P : String → Type 0) where
  -- What is known of a worker follows where it is that worker.
  abbrev Given : String → Option String → Type 0
  Given v none = Unit
  Given v (some w) = P w → P v

  All-snoc :
      (rs : List Request) (r : Request)
      → All (λ r. P (target r)) rs
      → P (target r)
      → All (λ r. P (target r)) (rs ++ r ∷ [])
  All-snoc [] r h p = (p, tt)
  All-snoc (x ∷ xs) r h p = (h.0, All-snoc xs r h.1 p)

  module _ {S E : Type 0} where
    answered-IsKnown :
        (share : Task → S → S) (a : Answer) (w : Node) (t : Task) (m : Manager S E)
        → P w.name
        → IsKnown P m
        → IsKnown P (answered share a w t m)
    unfolding answered
    answered-IsKnown share (unreachable e) w t m p k = record {
      nodes = k.nodes;
      assigned = k.assigned;
      sent = k.sent;
    }
    answered-IsKnown share (refused s) w t m p k = k
    answered-IsKnown share (created true held) w t m p k = record {
      nodes =
          Named-write_node P (record w { task_count = w.task_count + 1 }) m.worker_nodes p k.nodes;
      assigned = k.assigned;
      sent = k.sent;
    }
    answered-IsKnown share (created false held) w t m p k = record {
      nodes = k.nodes;
      assigned = k.assigned;
      sent = k.sent;
    }

    stop_existing-IsKnown :
        (id_string : Uuid → String) (w : String) (te : TaskEvent) (r : Result Value)
        (m : Manager S E)
        → P w
        → IsKnown P m
        → IsKnown P (stop_existing id_string w te r m).1
    unfolding stop_existing
    stop_existing-IsKnown id_string w te (ok (Port.task t)) m p k =
        elim (Bool-cases
          (te.state == completed && valid_state_transition t.status.state te.state)) [
            | inl b ↦ rw b (record {
              nodes = k.nodes;
              assigned = k.assigned;
              sent = All-snoc m.requests (delete w (id_string te.task.metadata.id)) k.sent p;
            })
            | inr b ↦ rw b k
          ]
    stop_existing-IsKnown id_string w te (ok (Port.event e)) m p k = k
    stop_existing-IsKnown id_string w te (ok Port.other) m p k = k
    stop_existing-IsKnown id_string w te (err e) m p k = k
    stop_existing-IsKnown id_string w te panic m p k = k

    -- The manager as it sends the event.
    sent-IsKnown :
        (te : TaskEvent) (w : Node) (m : Manager S E)
        → P w.name
        → IsKnown P m
        → IsKnown P (requested (post w.name te) (assign te.task.metadata.id w.name m))
    sent-IsKnown te w m p k = record {
      nodes = k.nodes;
      assigned = λ id v e.
          by_key (te.task.metadata.id == id) id v
            (sym (lookup-insert te.task.metadata.id id w.name m.task_worker_map) ∙ e);
      sent = All-snoc m.requests (post w.name te) k.sent p;
    }
      where
        by_key :
            (b : Bool) (id : Uuid) (v : String)
            → (if b then some w.name else lookup id m.task_worker_map) ≡ some v
            → P v
        by_key true id v e = subst (Given v) (sym e) (λ q. q) p
        by_key false id v e = k.assigned id v e

  module _ {S E F : Type 0} (f : Float F) (demand : Task → Demand) (answers : Node → Answers)
      (id_string : Uuid → String) where
    -- What SelectWorker answers, and the manager that it leaves.
    abbrev Selects : Result Node × Manager S E → Type 0
    Selects (ok w, m) = P w.name × IsKnown P m
    Selects (err e, m) = IsKnown P m
    Selects (panic, m) = IsKnown P m

    chosen-Selects :
        (m : Manager S E) (r : Result Chosen)
        → IsKnown P m
        → IsChosen P f demand answers r
        → Selects (chosen f demand answers id_string m r)
    chosen-Selects m (ok c) k h = by_node c.node h.0
      where
        by_node :
            (n : Option Node)
            → HasName P n
            → Selects (elim n as (λ _. Result Node × Manager S E) [
              | some n ↦ (ok n, record m { scheduler = c.scheduler; worker_nodes = c.nodes })
              | none ↦ (panic, m)
            ])
        by_node none p = k
        by_node (some n) p = (p, record { nodes = h.1; assigned = k.assigned; sent = k.sent })
    chosen-Selects m (err e) k h = k
    chosen-Selects m panic k h = k

    select-Selects :
        (t : Task) (m : Manager S E)
        → IsKnown P m
        → Selects (select_worker f demand answers id_string t m)
    unfolding select_worker
    select-Selects t m k =
        by_candidates (candidates_of f demand answers t m.scheduler m.worker_nodes)
          (candidates-Named P f demand answers t m.scheduler m.worker_nodes k.nodes)
      where
        by_candidates :
            (ns : List Node) → Named P ns → Selects (select_from f demand answers id_string t m ns)
        by_candidates [] h = k
        by_candidates (n ∷ ns) h =
            chosen-Selects m (choose f demand answers t m.scheduler m.worker_nodes (n ∷ ns)) k
              (choose-IsChosen P f demand answers t m.scheduler m.worker_nodes (n ∷ ns) k.nodes h)

    module _ (store : Store S) (event_store : Store E) (reply : Request → Answer) where
      posted-IsKnown :
          (te : TaskEvent) (w : Node) (r : Result S) (m : Manager S E)
          → P w.name
          → IsKnown P m
          → IsKnown P
              (posted f demand answers id_string store event_store reply w te
                (in_scheduled te.task)
                r
                (assign te.task.metadata.id w.name m)).1
      unfolding answered
      posted-IsKnown te w (ok db) m p k =
          answered-IsKnown (store.mutate (id_string te.task.metadata.id)) (reply (post w.name te)) w
            (in_scheduled te.task) _ p
            (sent-IsKnown te w (record m { task_db = db }) p
              (record { nodes = k.nodes; assigned = k.assigned; sent = k.sent }))
      posted-IsKnown te w (err e) m p k =
          answered-IsKnown (λ held db. db) (reply (post w.name te)) w (in_scheduled te.task) _ p
            (sent-IsKnown te w m p k)
      posted-IsKnown te w panic m p k =
          let k' = sent-IsKnown te w m p k in
          record { nodes = k.nodes; assigned = k'.assigned; sent = k.sent }

      place-IsKnown :
          (te : TaskEvent) (r : Result Node × Manager S E)
          → Selects r
          → IsKnown P (place f demand answers id_string store event_store reply te r.0 r.1).1
      unfolding answered
      place-IsKnown te (ok w, m) h = posted-IsKnown te w _ m h.0 h.1
      place-IsKnown te (err e, m) h = h
      place-IsKnown te (panic, m) h = h

      dispatch-IsKnown :
          (te : TaskEvent) (m : Manager S E)
          → IsKnown P m
          → IsKnown P (dispatch f demand answers id_string store event_store reply te m).1
      unfolding dispatch
      dispatch-IsKnown te m k = by_assigned (lookup te.task.metadata.id m.task_worker_map) refl
        where
          by_assigned :
              (o : Option String)
              → lookup te.task.metadata.id m.task_worker_map ≡ o
              → IsKnown P (dispatch f demand answers id_string store event_store reply te m).1
          by_assigned (some w) e =
              rw (e, dispatch)
                (stop_existing-IsKnown id_string w te _ m (k.assigned te.task.metadata.id w e) k)
          by_assigned none e = rw (e, dispatch) (place-IsKnown te _ (select-Selects te.task m k))

      -- Whatever the stores, the nodes and the workers answer, SendWork talks to workers of that kind only.
      pub send_work-IsKnown :
          (m : Manager S E)
          → IsKnown P m
          → IsKnown P (send_work f demand answers id_string store event_store reply m).1
      unfolding send_work
      send_work-IsKnown m k = by_items m.pending
        where
          known_as :
              (rest : List Item) (db : E) → IsKnown P (record m { pending = rest; event_db = db })
          known_as rest db = record { nodes = k.nodes; assigned = k.assigned; sent = k.sent }

          by_stored :
              (te : TaskEvent) (rest : List Item) (r : Result E)
              → IsKnown P
                  (stored f demand answers id_string store event_store reply te r
                    (record m { pending = rest })).1
          by_stored te rest (ok db) =
              dispatch-IsKnown te (record m { pending = rest; event_db = db }) (known_as rest db)
          by_stored te rest (err e) =
              dispatch-IsKnown te (record m { pending = rest }) (known_as rest m.event_db)
          by_stored te rest panic = known_as rest m.event_db

          by_items :
              (items : List Item)
              → IsKnown P (take f demand answers id_string store event_store reply items m).1
          by_items [] = k
          by_items (task t ∷ rest) = known_as rest m.event_db
          by_items (event te ∷ rest) = by_stored te rest _
