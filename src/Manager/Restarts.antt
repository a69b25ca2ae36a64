-- ===== src/Manager/Restarts.antt =====
-- What the health checks of internal/adapters/manager/manager.go do where the pointer to the worker service is nil.
use devops_platform.Base.{
  ◌+◌, err, Option, none, some, Result, ◌≡◌, refl, Bool, true, false, ◌&&◌, ◌||◌, ltb, List, [],
  ◌∷◌, ◌==◌, if◌then◌else◌, arith, String, ok, panic, continue, ◌>>=◌, Bool-cases, inl, inr,
}
use devops_platform.Task.Defs.{Task, Uuid}
use devops_platform.Task.State.{scheduled, running, failed, state_eq}
use devops_platform.Store.Port.{Store}
use devops_platform.Store.Port as Port
use devops_platform.Manager.Polling.{put_back}
use devops_platform.Manager.Defs.{Manager, get_tasks}
use devops_platform.Manager.Health.{
  hand_over, check_task_health, restart_task, rescheduled, max_restarts, check_one, check_all,
  do_health_checks,
}

-- The check does something with the task.
abbrev pub is_due : Task → Bool
is_due t =
    (t.status.state == running || t.status.state == failed)
    && ltb t.status.restart_count max_restarts

abbrev pub any_due : List Task → Bool
any_due [] = false
any_due (t ∷ ts) = is_due t || any_due ts

abbrev pub first_due : List Task → Option Task
first_due [] = none
first_due (t ∷ ts) = if is_due t then some t else first_due ts

abbrev pub restarted : Task → Task
restarted t = record t {
  status = record (t.status) { state = scheduled; restart_count = t.status.restart_count + 1 };
}

-- What a Put leaves.
abbrev pub kept : {S : Type 0} → Result S → S → S
kept (ok db) old = db
kept r old = old

module _ {S E : Type 0} where
  module _ (id_string : Uuid → String) (store : Store S) where
    check_one-idle :
        (t : Task) (m : Manager S E) → is_due t ≡ false → check_one id_string store t m ≡ (ok tt, m)
    unfolding check_one check_task_health restart_task hand_over ◌>>=◌
    check_one-idle t m d = ground arith

    -- The manager where a round of health checks stops.
    abbrev pub at_panic : Task → Manager S E → Manager S E
    at_panic t m =
        if t.status.state == failed
        then record m {
          task_db =
              kept (store.put (id_string t.metadata.id) (Port.task (restarted t)) m.task_db)
                m.task_db;
        }
        else m

    restart_task-unset :
        (t : Task) (m : Manager S E)
        → restart_task id_string store t m ≡ (
          panic,
          record m {
            task_db =
                kept
                  (store.put (id_string t.metadata.id) (Port.task (restarted t)) m.task_db)
                  m.task_db;
          },
        )
    unfolding restart_task hand_over ◌>>=◌
    restart_task-unset t m =
        by_put (store.put (id_string t.metadata.id) (Port.task (restarted t)) m.task_db)
      where
        by_put :
            (r : Result S)
            → continue (put_back r m).0 (λ _. hand_over (rescheduled t)) (put_back r m).1
              ≡ (panic, record m { task_db = kept r m.task_db })
        by_put (ok db) = refl
        by_put (err e) = refl
        by_put panic = refl

    check_one-due :
        (t : Task) (m : Manager S E)
        → is_due t ≡ true
        → check_one id_string store t m ≡ (panic, at_panic t m)
    unfolding check_one check_task_health
    check_one-due t m d = elim (Bool-cases (t.status.state == failed)) [
      | inl f ↦
          let due : ltb t.status.restart_count max_restarts ≡ true = ground arith in
          let other : (t.status.state == running) ≡ false = ground arith in
          rw (f, due, other, check_one) (restart_task-unset t m)
      | inr f ↦
          let due : ltb t.status.restart_count max_restarts ≡ true = ground arith in
          let this : (t.status.state == running) ≡ true = ground arith in
          rw (f, due, this, check_one) refl
    ]

    check_all-first :
        (ts : List Task) (m : Manager S E)
        → check_all id_string store ts m
          ≡ elim (first_due ts) [ none ↦ (ok tt, m) | some t ↦ (panic, at_panic t m) ]
    unfolding check_all ◌>>=◌
    check_all-first [] m = refl
    check_all-first (t ∷ ts) m = elim (Bool-cases (is_due t)) [
      | inl d ↦ rw (check_one-due t m d, continue) (rw d refl)
      | inr d ↦ rw (check_one-idle t m d) (rw d (check_all-first ts m))
    ]

    -- With the worker service that New leaves unset, a round of health checks over the listed tasks does nothing
    -- where none is running or failed and was restarted less than three times. Otherwise it panics at the first
    -- such task, and has written the store at most once: where that task failed, it was put there as scheduled
    -- with one more restart.
    pub do_health_checks_first :
        (m : Manager S E) (ts : List Task)
        → get_tasks store m ≡ ok ts
        → do_health_checks id_string store m
          ≡ elim (first_due ts) [ none ↦ (ok tt, m) | some t ↦ (panic, at_panic t m) ]
    unfolding do_health_checks
    do_health_checks_first m ts l = rw l (check_all-first ts m)
