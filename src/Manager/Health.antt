-- ===== src/Manager/Health.antt =====
-- internal/adapters/manager/manager.go, lines 185 to 236: doHealthChecks, restartTask and checkTaskHealth.
-- Nothing sets the pointer `m.worker`, so the methods of the worker service that they call panic.
use devops_platform.Base.{
  ℕ, ◌+◌, ◌&&◌, ltb, String, List, [], ◌∷◌, Option, none, some, ◌==◌, if◌then◌else◌, Result, ok,
  panic, Exec, pure, continue, ◌>>◌,
}
use devops_platform.Task.State.{scheduled, running, failed, state_eq}
use devops_platform.Task.Defs.{Task, Uuid}
use devops_platform.Store.Port.{Store}
use devops_platform.Store.Port as Port
use devops_platform.Worker.Defs.{with_status}
use devops_platform.Manager.Defs.{Manager, get_tasks}
use devops_platform.Manager.Polling.{put_back}

abbrev pub max_restarts : ℕ
max_restarts = 3

abbrev pub rescheduled : Task → Task
rescheduled = with_status λ s. record s { state = scheduled; restart_count = s.restart_count + 1 }

-- for k, _ := range ports { return &ports[k][0].HostPort }, over the entries in the order of the range
unfoldable pub get_host_port : List (String × List String) → Result (Option String)
get_host_port [] = ok none
get_host_port ((port, []) ∷ rest) = panic
get_host_port ((port, b ∷ bs) ∷ rest) = ok (some b)

module _ {S E : Type 0} where
  -- m.worker.AddTask(*t), of a scheduled task, reads `pendingTasks` of a nil pointer.
  unfoldable pub hand_over : Task → Exec (Manager S E) (Unit {0})
  hand_over t m = (panic, m)

  -- m.worker.CheckTaskHealth(t), of a running task, reads `GrpcClient` of a nil pointer.
  unfoldable pub check_task_health : Task → Exec (Manager S E) (Unit {0})
  check_task_health t m = (panic, m)

  module _ (id_string : Uuid → String) (store : Store S) where
    unfoldable pub restart_task : Task → Exec (Manager S E) (Unit {0})
    unfolding hand_over
    restart_task t =
        (λ m.
          put_back (store.put (id_string t.metadata.id) (Port.task (rescheduled t)) m.task_db) m)
        >> hand_over (rescheduled t)

    -- The body of the loop; checkTaskHealth returns no error, so a running task is not restarted.
    unfoldable pub check_one : Task → Exec (Manager S E) (Unit {0})
    unfolding restart_task check_task_health
    check_one t =
        if t.status.state == running && ltb t.status.restart_count max_restarts
        then check_task_health t
        else if t.status.state == failed && ltb t.status.restart_count max_restarts
        then restart_task t
        else pure tt

    unfoldable pub check_all : List Task → Exec (Manager S E) (Unit {0})
    unfolding check_one
    check_all [] = pure tt
    check_all (t ∷ ts) = check_one t >> check_all ts

    unfoldable pub do_health_checks : Exec (Manager S E) (Unit {0})
    unfolding check_all
    do_health_checks m = continue (get_tasks store m) check_all m
