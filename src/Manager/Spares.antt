-- ===== src/Manager/Spares.antt =====
-- The operations of internal/adapters/manager/manager.go that leave the books, the queue and the nodes of the
-- manager alone: updateTasks and doHealthChecks.
use devops_platform.Base.{
  ◌≡◌, refl, ◌∙◌, Bool, true, false, ◌&&◌, ltb, String, List, [], ◌∷◌, ◌==◌, string_eq, nat_eq,
  if◌then◌else◌, arith, Result, ok, err, panic, Exec, pure, continue, ◌>>=◌, ◌>>◌,
}
use devops_platform.Task.Defs.{Task, Uuid}
use devops_platform.Task.State.{running, failed, state_eq}
use devops_platform.Store.Port.{Store, Value, Listing}
use devops_platform.Store.Port as Port
use devops_platform.Scheduler.Node.{Node, Response}
use devops_platform.Manager.Defs.{Manager, get_tasks}
use devops_platform.Manager.Polling.{
  Poll, merged, put_back, update_found, update_task, update_all, update_from, poll_workers,
  update_node_stats,
}
use devops_platform.Manager.Health.{
  hand_over, check_task_health, restart_task, rescheduled, max_restarts, check_one, check_all,
  do_health_checks,
}
use devops_platform.Manager.Orderly.{Agrees}

-- The two managers have the same books, queue and nodes.
abbrev pub Matches : {S E : Type 0} → Manager S E → Manager S E → Type 0
Matches m m' = Agrees m m' × (m'.worker_nodes ≡ m.worker_nodes)

-- A method that leaves the books, the queue and the nodes alone.
abbrev pub Spares : {S E : Type 0} → Exec (Manager S E) (Unit {0}) → Type 0
Spares {S} {E} x = (m : Manager S E) → Matches m (x m).1

module _ {S E : Type 0} where
  Matches-trans : (a b c : Manager S E) → Matches a b → Matches b c → Matches a c
  Matches-trans a b c ((p, q, r, s), n) ((p', q', r', s'), n') =
      ((p' ∙ p, q' ∙ q, r' ∙ r, s' ∙ s), n' ∙ n)

  Spares-then : (x y : Exec (Manager S E) (Unit {0})) → Spares x → Spares y → Spares (x >> y)
  unfolding ◌>>=◌
  Spares-then x y hx hy m = by_outcome (x m) (hx m)
    where
      by_outcome :
          (r : Result (Unit {0}) × Manager S E)
          → Matches m r.1
          → Matches m (continue r.0 (λ _. y) r.1).1
      by_outcome (ok u, m') h = Matches-trans m m' (y m').1 h (hy m')
      by_outcome (err e, m') h = h
      by_outcome (panic, m') h = h

  Spares-pure : Spares {S = S} {E = E} (pure tt)
  Spares-pure m = ((refl, refl, refl, refl), refl)

  Spares-if :
      (b : Bool) (x y : Exec (Manager S E) (Unit {0}))
      → Spares x
      → Spares y
      → Spares (if b then x else y)
  Spares-if true x y hx hy = hx
  Spares-if false x y hx hy = hy

  put_back-Matches : (r : Result S) (m : Manager S E) → Matches m (put_back r m).1
  put_back-Matches (ok db) m = ((refl, refl, refl, refl), refl)
  put_back-Matches (err e) m = ((refl, refl, refl, refl), refl)
  put_back-Matches panic m = ((refl, refl, refl, refl), refl)

  hand_over-Spares : (t : Task) → Spares {S = S} {E = E} (hand_over t)
  unfolding hand_over
  hand_over-Spares t m = ground arith

  check_task_health-Spares : (t : Task) → Spares {S = S} {E = E} (check_task_health t)
  unfolding check_task_health
  check_task_health-Spares t m = ground arith

  pub refresh-Agrees :
      (answer : Node → Result Response) (m : Manager S E) → Agrees m (update_node_stats answer m).1
  unfolding update_node_stats
  refresh-Agrees answer m = ground arith

  module _ (id_string : Uuid → String) (store : Store S) where
    update_found-Matches :
        (t : Task) (r : Result Value) (m : Manager S E)
        → Matches m (update_found id_string store t r m).1
    unfolding merged
    update_found-Matches t (ok (Port.task p)) m = put_back-Matches _ m
    update_found-Matches t (ok (Port.event e)) m = ((refl, refl, refl, refl), refl)
    update_found-Matches t (ok Port.other) m = ((refl, refl, refl, refl), refl)
    update_found-Matches t (err e) m = ((refl, refl, refl, refl), refl)
    update_found-Matches t panic m = ((refl, refl, refl, refl), refl)

    update_all-Spares : (ts : List Task) → Spares {S = S} {E = E} (update_all id_string store ts)
    unfolding update_all update_task merged
    update_all-Spares [] = Spares-pure
    update_all-Spares (t ∷ ts) =
        Spares-then (update_task id_string store t) _ (λ m. update_found-Matches t _ m)
          (update_all-Spares ts)

    update_from-Spares : (p : Poll) → Spares {S = S} {E = E} (update_from id_string store p)
    unfolding update_all update_from
    update_from-Spares (Poll.unreachable e) = Spares-pure
    update_from-Spares (Poll.answered status ts) =
        Spares-if (status == 200) _ _ (update_all-Spares ts) Spares-pure

    pub poll_workers-Spares :
        (poll : String → Poll) (ws : List String)
        → Spares {S = S} {E = E} (poll_workers id_string store poll ws)
    unfolding poll_workers
    poll_workers-Spares poll [] = Spares-pure
    poll_workers-Spares poll (w ∷ ws) =
        Spares-then _ _ (update_from-Spares (poll w)) (poll_workers-Spares poll ws)

    restart_task-Spares : (t : Task) → Spares {S = S} {E = E} (restart_task id_string store t)
    unfolding restart_task
    restart_task-Spares t =
        Spares-then _ _ (λ m. put_back-Matches _ m) (hand_over-Spares (rescheduled t))

    check_all-Spares : (ts : List Task) → Spares {S = S} {E = E} (check_all id_string store ts)
    unfolding check_all check_one
    check_all-Spares [] = Spares-pure
    check_all-Spares (t ∷ ts) =
        Spares-then _ _
          (Spares-if (t.status.state == running && ltb t.status.restart_count max_restarts) _ _
            (check_task_health-Spares t)
            (Spares-if (t.status.state == failed && ltb t.status.restart_count max_restarts) _ _
              (restart_task-Spares t) Spares-pure))
          (check_all-Spares ts)

    pub do_health_checks-Spares : Spares {S = S} {E = E} (do_health_checks id_string store)
    unfolding do_health_checks
    do_health_checks-Spares m = by_listing (get_tasks store m)
      where
        by_listing :
            (r : Result (List Task)) → Matches m (continue r (check_all id_string store) m).1
        by_listing (ok ts) = check_all-Spares ts m
        by_listing (err e) = ((refl, refl, refl, refl), refl)
        by_listing panic = ((refl, refl, refl, refl), refl)
