-- ===== src/Worker/LifeCycle/Outputs.antt =====
-- processTaskOutput of internal/adapters/worker/worker_service.go over the outputs of a command that runs and
-- then completes.
use devops_platform.Base.{
  ℕ, ◌≡◌, refl, ◌∙◌, true, String, List, [], ◌∷◌, ◌++◌, some, Map, lookup, insert,
  lookup-insert_self, ok, All, Exec, ◌>>=◌, ◌>>◌, string_eq, arith,
}
use devops_platform.Task.State.{running, completed, valid_state_transition}
use devops_platform.Task.Defs.{Task, TaskStatus}
use devops_platform.Store.Memory.Tasks.{get, put, in_memory_task_store}
use devops_platform.Worker.Defs.{WorkerService, CommandOutput, notify_observers}
use devops_platform.Worker.Running.{
  with_result, output_status, update_task_status, process_task_output,
}

-- The same task in the same container.
abbrev pub IsSame : Task → Task → Type 0
IsSame t t' =
    (t'.metadata ≡ t.metadata)
    × (t'.spec ≡ t.spec)
    × (t'.status.container_id ≡ t.status.container_id)

abbrev pub IsRunning : ℕ × CommandOutput → Type 0
IsRunning o = o.1.state ≡ "running"

running_running : valid_state_transition running running ≡ true
unfolding valid_state_transition
running_running = refl

running_completed : valid_state_transition running completed ≡ true
unfolding valid_state_transition
running_completed = refl

status_running :
    (now : ℕ) (s : TaskStatus) {word : String}
    → word ≡ "running"
    → s.state ≡ running
    → output_status now word s ≡ some (record s { state = running })
unfolding output_status
status_running now s o r = rw o (rw (r, running_running) refl)

status_completed :
    (now : ℕ) (s : TaskStatus) {word : String}
    → word ≡ "completed"
    → s.state ≡ running
    → output_status now word s ≡ some (record s { state = completed; finish_time = some now })
unfolding output_status
status_completed now s o r = rw o (rw (r, running_completed) refl)

then_ok : {S : Type 0} (m k : Exec S (Unit {0})) (s s' : S) → m s ≡ (ok tt, s') → (m >> k) s ≡ k s'
unfolding ◌>>=◌
then_ok m k s s' e = rw e refl

module _ (order : Map String Task → Map String Task) where
  abbrev Db : Type 0
  Db = WorkerService (Map String Task)

  -- The task as an output leaves it: what the command reports is in its message and its exit code.
  abbrev reported : (TaskStatus → TaskStatus) → CommandOutput → Task → Task
  reported f output t = record t { status = with_result output (f t.status) }

  update_running :
      (now : ℕ) (k : String) (output : CommandOutput) (t : Task) (w : Db)
      → lookup k w.db ≡ some t
      → t.status.state ≡ running
      → output.state ≡ "running"
      → update_task_status (in_memory_task_store order) now k output w ≡ (
        ok tt,
        record w { db = insert k (reported (λ s. record s { state = running }) output t) w.db },
      )
  unfolding update_task_status get put
  update_running now k output t w l s o =
      rw (l, update_task_status) (rw (status_running now t.status o s) refl)

  update_completed :
      (now : ℕ) (k : String) (output : CommandOutput) (t : Task) (w : Db)
      → lookup k w.db ≡ some t
      → t.status.state ≡ running
      → output.state ≡ "completed"
      → update_task_status (in_memory_task_store order) now k output w ≡ (
        ok tt,
        record w {
          db =
              insert k
                (reported (λ s. record s { state = completed; finish_time = some now }) output t)
                w.db;
        },
      )
  unfolding update_task_status get put
  update_completed now k output t w l s o =
      rw (l, update_task_status) (rw (status_completed now t.status o s) refl)

  abbrev notified : String → CommandOutput → Db → Db
  notified k output w = (notify_observers k output w).1

  db-notify : (k : String) (output : CommandOutput) (w : Db) → (notified k output w).db ≡ w.db
  unfolding notify_observers
  db-notify k output w = ground arith

  notify_lem :
      (k : String) (output : CommandOutput) (w : Db)
      → notify_observers k output w ≡ (ok tt, notified k output w)
  unfolding notify_observers
  notify_lem k output w = ground arith

  one_output :
      (now : ℕ) (k : String) (output : CommandOutput) (outs : List (ℕ × CommandOutput)) (w w' : Db)
      → update_task_status (in_memory_task_store order) now k output (notified k output w)
        ≡ (ok tt, w')
      → process_task_output (in_memory_task_store order) ((now, output) ∷ outs) k w
        ≡ process_task_output (in_memory_task_store order) outs k w'
  unfolding process_task_output
  one_output now k output outs w w' u =
      then_ok (notify_observers k output) _ w (notified k output w) (notify_lem k output w)
      ∙ then_ok (update_task_status (in_memory_task_store order) now k output) _
          (notified k output w) w' u

  -- A command that reports `running`, any number of times, and then `completed`: its task ends completed
  -- at that time.
  pub outputs_complete :
      (outs : List (ℕ × CommandOutput)) (now : ℕ) (last : CommandOutput) (k : String) (t : Task)
      (w : Db)
      → All IsRunning outs
      → last.state ≡ "completed"
      → lookup k w.db ≡ some t
      → t.status.state ≡ running
      → let r = process_task_output (in_memory_task_store order) (outs ++ (now, last) ∷ []) k w in
        (r.0 ≡ ok tt)
        × (t' : Task) × (lookup k r.1.db ≡ some t')
        × (t'.status.state ≡ completed)
        × (t'.status.finish_time ≡ some now)
        × IsSame t t'
  unfolding process_task_output
  outputs_complete [] now last k t w a c l s =
      let e =
        one_output now k last [] w _
          (update_completed now k last t (notified k last w) (rw (db-notify k last w) l) s c) in
      rw e (refl, _, lookup-insert_self k _ _, refl, refl, (refl, refl, refl))
  outputs_complete ((n, o) ∷ outs) now last k t w a c l s =
      let t1 = reported (λ s. record s { state = running }) o t in
      let e =
        one_output n k o (outs ++ (now, last) ∷ []) w _
          (update_running n k o t (notified k o w) (rw (db-notify k o w) l) s (a.0)) in
      rw e (outputs_complete outs now last k t1 _ (a.1) c (lookup-insert_self k _ _) refl)
