-- ===== src/Manager/Talks.antt =====
-- To which workers a manager of internal/adapters/manager/manager.go talks in runs of its operations.
use mathlib.Core.List.{Memᴰ}
use devops_platform.Base.{
  ◌≡◌, refl, sym, subst, String, List, [], ◌∷◌, All, map, some, lookup, string_eq, nat_eq, Result,
  ok, err, panic, continue, ◌>>=◌, arith,
}
use devops_platform.Task.Defs.{Task, Uuid}
use devops_platform.Store.Port.{Store}
use devops_platform.Scheduler.Floats.{Float}
use devops_platform.Scheduler.Stats.{Stats}
use devops_platform.Scheduler.Node.{Node, Response, new_node, get_stats}
use devops_platform.Scheduler.Costs.{Demand}
use devops_platform.Scheduler.Names.{Named, name-get_stats}
use devops_platform.Manager.Defs.{Manager, manager_on, add_task, worker_node}
use devops_platform.Manager.Polling.{prepend, refresh_nodes, update_tasks, update_node_stats}
use devops_platform.Manager.Health.{do_health_checks}
use devops_platform.Manager.Spares.{Matches, poll_workers-Spares, do_health_checks-Spares}
use devops_platform.Manager.Runs.{Operation, add, send, update, refresh, check, perform, run}
use devops_platform.Manager.Known.{IsKnown, target, send_work-IsKnown}

prepend-ok :
    (n : Node) (r : Result (List Node)) (rest : List Node)
    → prepend n r ≡ ok rest
    → (ns : List Node) × (r ≡ ok ns) × (n ∷ ns ≡ rest)
prepend-ok n (ok ns) rest e = (ns, refl, cc)
prepend-ok n (err e) rest h = cc
prepend-ok n panic rest h = cc

module _ (P : String → Type 0) where
  refreshed-Named :
      (answer : Node → Result Response) (ns rest : List Node)
      → Named P ns
      → refresh_nodes answer ns ≡ ok rest
      → Named P rest
  unfolding refresh_nodes
  refreshed-Named answer [] rest h e = subst (Named P) (last-eq e) tt
    where
      last-eq : ◌≡◌ {A = Result (List Node)} (ok []) (ok rest) → [] ≡ rest
      last-eq q = cc
  refreshed-Named answer (n ∷ ns) rest h e =
      by_stats (get_stats (answer n) n) refl e (λ r q. refreshed-Named answer ns r h.1 q)
    where
      in_front :
          (n' : Node)
          → P n'.name
          → prepend n' (refresh_nodes answer ns) ≡ ok rest
          → ((r : List Node) → refresh_nodes answer ns ≡ ok r → Named P r)
          → Named P rest
      in_front n' p q ih =
          let (ns', found, same) = prepend-ok n' (refresh_nodes answer ns) rest q in
          subst (Named P) same (p, ih ns' found)

      by_stats :
          (g : Result (Node × Stats))
          → get_stats (answer n) n ≡ g
          → (elim g as (λ _. Result (List Node)) [
            | ok (n', s) ↦ prepend n' (refresh_nodes answer ns)
            | err e ↦ prepend n (refresh_nodes answer ns)
            | panic ↦ panic
          ])
            ≡ ok rest
          → ((r : List Node) → refresh_nodes answer ns ≡ ok r → Named P r)
          → Named P rest
      by_stats (ok (n', s)) g q ih =
          in_front n' (subst P (sym (name-get_stats (answer n) n n' s g)) h.0) q ih
      by_stats (err e) g q ih = in_front n h.0 q ih
      by_stats panic g q ih = cc

  module _ {S E : Type 0} where
    match-IsKnown : (m m' : Manager S E) → Matches m m' → IsKnown P m → IsKnown P m'
    match-IsKnown m m' ((_, a, r, _), n) k = record {
      nodes = subst (Named P) (sym n) k.nodes;
      assigned = λ id w e. k.assigned id w (subst (λ x. lookup id x ≡ some w) a e);
      sent = subst (All λ q. P (target q)) (sym r) k.sent;
    }

    refresh-IsKnown :
        (answer : Node → Result Response) (m : Manager S E)
        → IsKnown P m
        → IsKnown P (update_node_stats answer m).1
    unfolding update_node_stats
    refresh-IsKnown answer m k = by_nodes (refresh_nodes answer m.worker_nodes) refl
      where
        by_nodes :
            (r : Result (List Node))
            → refresh_nodes answer m.worker_nodes ≡ r
            → IsKnown P
                (elim r as (λ _. Result (Unit {0}) × Manager S E) [
                  | ok ns ↦ (ok tt, record m { worker_nodes = ns })
                  | err e ↦ (ok tt, m)
                  | panic ↦ (panic, m)
                ]).1
        by_nodes (ok ns) e = record {
          nodes = refreshed-Named answer m.worker_nodes ns k.nodes e;
          assigned = k.assigned;
          sent = k.sent;
        }
        by_nodes (err e) q = k
        by_nodes panic q = k

  module _ {S E F : Type 0} (f : Float F) (demand : Task → Demand) (id_string : Uuid → String)
      (store : Store S) (event_store : Store E) where
    perform-IsKnown :
        (op : Operation) (m : Manager S E)
        → IsKnown P m
        → IsKnown P (perform f demand id_string store event_store op m).1
    unfolding perform add_task update_tasks
    perform-IsKnown (add te) m k = record { nodes = k.nodes; assigned = k.assigned; sent = k.sent }
    perform-IsKnown (send reply answers) m k =
        send_work-IsKnown P f demand answers id_string store event_store reply m k
    perform-IsKnown (update poll) m k =
        match-IsKnown m (update_tasks id_string store poll m).1
          (poll_workers-Spares id_string store poll m.workers m) k
    perform-IsKnown (refresh answer) m k = refresh-IsKnown answer m k
    perform-IsKnown check m k =
        match-IsKnown m (do_health_checks id_string store m).1
          (do_health_checks-Spares id_string store m) k

    run-IsKnown :
        (ops : List Operation) (m : Manager S E)
        → IsKnown P m
        → IsKnown P (run f demand id_string store event_store ops m).1
    unfolding run ◌>>=◌
    run-IsKnown [] m k = k
    run-IsKnown (op ∷ ops) m k =
        by_outcome (perform f demand id_string store event_store op m) (perform-IsKnown op m k)
          (run-IsKnown ops)
      where
        by_outcome :
            (r : Result (Unit {0}) × Manager S E)
            → IsKnown P r.1
            → ((m' : Manager S E)
                → IsKnown P m'
                → IsKnown P (run f demand id_string store event_store ops m').1)
            → IsKnown P (continue r.0 (λ _. run f demand id_string store event_store ops) r.1).1
        by_outcome (ok u, m') h rec = rec m' h
        by_outcome (err e, m') h rec = h
        by_outcome (panic, m') h rec = h

Named-worker_node :
    (P : String → Type 0) (ws : List String) → All P ws → Named P (map worker_node ws)
unfolding worker_node new_node
Named-worker_node P [] h = tt
Named-worker_node P (w ∷ ws) h = (h.0, Named-worker_node P ws h.1)

All-Memᴰ :
    (ws all : List String) → ((w : String) → Memᴰ w ws → Memᴰ w all) → All (λ w. Memᴰ w all) ws
All-Memᴰ [] all h = tt
All-Memᴰ (w ∷ ws) all h =
    (h w (Memᴰ.head refl), All-Memᴰ ws all (λ v inside. h v (Memᴰ.tail inside)))

module _ {S E F : Type 0} (f : Float F) (demand : Task → Demand) (id_string : Uuid → String)
    (store : Store S) (event_store : Store E) where
  -- In every run from New each request goes to one of the workers that New was given, whatever the workers,
  -- the nodes and the stores answer.
  pub requests_known :
      (task_db : S) (event_db : E) (workers : List String) (kind : String) (ops : List Operation)
      → All
          (λ r. Memᴰ (target r) workers)
          (run f demand id_string store event_store ops
            (manager_on task_db event_db workers kind)).1.requests
  unfolding manager_on lookup
  requests_known task_db event_db workers kind ops =
      let P : String → Type 0 = λ w. Memᴰ w workers in
      let known : IsKnown P (manager_on task_db event_db workers kind) = record {
        nodes = Named-worker_node P workers (All-Memᴰ workers workers (λ w h. h));
        assigned = λ id w e. absurd (ground arith);
        sent = tt;
      } in
      (run-IsKnown P f demand id_string store event_store ops
        (manager_on task_db event_db workers kind) known).sent
