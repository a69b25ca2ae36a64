-- ===== src/Grpc/Words.antt =====
-- The words for a state that the worker sends (internal/adapters/grpc/server/worker_process_server.go) against
-- those that the manager's side reads (internal/adapters/worker/worker_service.go and
-- internal/adapters/grpc/client/worker_client.go).
use devops_platform.Base.{
  ℕ, ap, ◌≡◌, refl, Bool, true, false, String, List, [], ◌∷◌, ◌++◌, map, All, ltb, length, ◌>>=◌,
  ◌>>◌, pure, continue, Exec, ◌∙◌, Option, none, some, Result, ok, err, panic, arith, ◌==◌,
  string_eq,
}
use devops_platform.Store.Port.{Store, task}
use devops_platform.Task.Defs.{Task}
use devops_platform.Worker.Defs.{
  WorkerService, CommandOutput, with_state, state_output, notify_observers,
}
use devops_platform.Task.State.{failed, state_eq, valid_state_transition}
use devops_platform.Worker.Running.{update_task_status, process_task_output}
use devops_platform.Worker.Output.{is_last}
use devops_platform.Grpc.Server.{
  Request, Process, Wait, exited, exit_error, failed_wait, execute_command, run_process,
  line_output, final_output, Reply,
}
use devops_platform.Grpc.Client.{Received, response, end_of_stream, broken, read_outputs}

-- Neither the client nor updateTaskStatus knows the word.
abbrev pub IsUnread : CommandOutput → Type 0
IsUnread o =
    (is_last o.state ≡ false)
    × ((o.state == "running") ≡ false)
    × ((o.state == "completed") ≡ false)
    × ((o.state == "failed") ≡ false)

All-append :
    (sent final : List CommandOutput)
    → All IsUnread sent
    → All IsUnread final
    → All IsUnread (sent ++ final)
All-append [] final none_sent h = h
All-append (o ∷ os) final (unread, others) h = (unread, All-append os final others h)

lines-IsUnread : (id : String) (ls : List (Bool × String)) → All IsUnread (map (line_output id) ls)
unfolding line_output is_last
lines-IsUnread id [] = tt
lines-IsUnread id ((b, l) ∷ ls) = ((refl, refl, refl, refl), lines-IsUnread id ls)

final-IsUnread : (id : String) (w : Wait) → IsUnread (final_output id w)
unfolding final_output is_last
final-IsUnread id exited = (refl, refl, refl, refl)
final-IsUnread id (exit_error c e) = (refl, refl, refl, refl)
final-IsUnread id (failed_wait e) = (refl, refl, refl, refl)

-- Whatever the request and the process, every message that the worker sends has such a word.
execute_command-IsUnread :
    (busy : Bool) (request : Result Request) (spawn : Request → Process)
    → All IsUnread (execute_command busy request spawn).outputs
unfolding execute_command is_last
execute_command-IsUnread true request spawn = ((refl, refl, refl, refl), tt)
execute_command-IsUnread false (err e) spawn = tt
execute_command-IsUnread false panic spawn = tt
execute_command-IsUnread false (ok req) spawn =
    by_command (ltb 0 (length req.command)) (spawn req).start_error refl refl
  where
    by_command :
        (b : Bool) (e : Option String)
        → ltb 0 (length req.command) ≡ b
        → (spawn req).start_error ≡ e
        → All IsUnread (run_process req spawn).outputs
    by_command false e p q = rw (p, run_process) ((refl, refl, refl, refl), tt)
    by_command true (some e) p q = rw (p, q, run_process) ((refl, refl, refl, refl), tt)
    by_command true none p q =
        rw (p, q, run_process)
          (All-append _ _ (lines-IsUnread req.process_id (spawn req).lines) (
            final-IsUnread req.process_id (spawn req).wait,
            lines-IsUnread req.process_id (spawn req).late,
          ))

-- What gRPC gives the client of a call: the messages, then the end of the stream or the error of the call, with
-- the text that gRPC makes of it.
abbrev pub reply_received : (String → String) → Reply → List Received
reply_received status_text reply =
    map response reply.outputs
    ++ elim reply.error [ none ↦ end_of_stream | some e ↦ broken (status_text e) ] ∷ []

-- The client passes every one of them on, up to how the call ends.
read_outputs-unread :
    (id : String) (os : List CommandOutput) (rest : List Received)
    → All IsUnread os
    → read_outputs id (map response os ++ rest) ≡ os ++ read_outputs id rest
unfolding read_outputs
read_outputs-unread id [] rest h = refl
read_outputs-unread id (o ∷ os) rest h = ground (arith, read_outputs-unread id os rest)

-- What a Put leaves.
abbrev pub after_put : {S : Type 0} → Result S → S → S
after_put (ok db) old = db
after_put r old = old

abbrev pub failed_by : String → Task → Task
failed_by = with_state failed

module _ {S : Type 0} (store : Store S) where
  update_unread :
      (now : ℕ) (id : String) (o : CommandOutput) (w : WorkerService S) (t : Task)
      → IsUnread o
      → store.get id w.db ≡ ok (task t)
      → update_task_status store now id o w ≡ (ok tt, w)
  unfolding update_task_status
  update_unread now id o w t h g = ground arith

  db-notify :
      (id : String) (o : CommandOutput) (w : WorkerService S)
      → ((notify_observers id o w).0 ≡ ok tt) × ((notify_observers id o w).1.db ≡ w.db)
  unfolding notify_observers
  db-notify id o w = ground arith

  after_then :
      (x : Exec (WorkerService S) (Unit {0})) (w : WorkerService S)
      → ((x >> pure (tt {0})) w).1 ≡ (x w).1
  unfolding ◌>>=◌
  after_then x w = by_outcome (x w)
    where
      by_outcome :
          (r : Result (Unit {0}) × WorkerService S)
          → (continue r.0 (λ _. pure {S = WorkerService S} (tt {0})) r.1).1 ≡ r.1
      by_outcome (ok u, w') = refl
      by_outcome (err e, w') = refl
      by_outcome (panic, w') = refl

  update_failed :
      (now : ℕ) (id e : String) (w : WorkerService S) (t : Task)
      → valid_state_transition t.status.state failed ≡ true
      → store.get id w.db ≡ ok (task t)
      → (update_task_status store now id (state_output id "failed" e) w).1.db
        ≡ after_put (store.put id (task (failed_by e t)) w.db) w.db
  unfolding update_task_status
  update_failed now id e w t v g =
      rw (g, update_task_status, v) (by_put (store.put id (task (failed_by e t)) w.db))
    where
      by_put :
          (r : Result S)
          → (elim r as (λ _. Result (Unit {0}) × WorkerService S) [
            | ok db ↦ (ok tt, record w { db = db })
            | err e ↦ (ok tt, w)
            | panic ↦ (panic, w)
          ]).1.db
            ≡ after_put r w.db
      by_put (ok db) = refl
      by_put (err e) = refl
      by_put panic = refl

  process_unread :
      (now : ℕ) (id : String) (os tail : List CommandOutput) (t : Task) (after : S → S)
      → All IsUnread os
      → ((w : WorkerService S)
          → store.get id w.db ≡ ok (task t)
          → (process_task_output store (map (λ o. (now, o)) tail) id w).1.db ≡ after w.db)
      → (w : WorkerService S) → store.get id w.db ≡ ok (task t)
      → (process_task_output store (map (λ o. (now, o)) (os ++ tail)) id w).1.db ≡ after w.db
  unfolding process_task_output ◌>>=◌
  process_unread now id [] tail t after h base w g = base w g
  process_unread now id (o ∷ os) tail t after h base w g =
      let w' = (notify_observers id o w).1 in
      let (sent, kept) = db-notify id o w in
      let g' : store.get id w'.db ≡ ok (task t) = rw kept g in
      rw (sent) (
        rw (update_unread now id o w' t h.0 g')
          (process_unread now id os tail t after h.1 base w' g' ∙ ap after kept))

  process_failed :
      (now : ℕ) (id e : String) (t : Task) (w : WorkerService S)
      → valid_state_transition t.status.state failed ≡ true
      → store.get id w.db ≡ ok (task t)
      → (process_task_output store ((now, state_output id "failed" e) ∷ []) id w).1.db
        ≡ after_put (store.put id (task (failed_by e t)) w.db) w.db
  unfolding process_task_output ◌>>=◌
  process_failed now id e t w v g =
      let w' = (notify_observers id (state_output id "failed" e) w).1 in
      let (sent, kept) = db-notify id (state_output id "failed" e) w in
      let g' : store.get id w'.db ≡ ok (task t) = rw kept g in
      rw (sent) (
        ap (λ s. s.db)
          (after_then (update_task_status store now id (state_output id "failed" e)) w')
        ∙ update_failed now id e w' t v g'
        ∙ ap (λ db. after_put (store.put id (task (failed_by e t)) db) db) kept)

  -- For a stored task that may fail, whatever the request and the worker's process do, the messages that the
  -- client passes on leave the store as it was, and complete or fail no task, where the call
  -- of ExecuteCommand ends without an error; where the call returns an error, the store is as after one Put
  -- of the task as failed with that error, or as it was if that Put fails.
  pub command_outcome :
      (status_text : String → String) (busy : Bool) (request : Result Request)
      (spawn : Request → Process) (now : ℕ) (id : String) (w : WorkerService S) (t : Task)
      → valid_state_transition t.status.state failed ≡ true
      → store.get id w.db ≡ ok (task t)
      → let reply = execute_command busy request spawn in
        (process_task_output store
          (map (λ o. (now, o)) (read_outputs id (reply_received status_text reply)))
          id
          w).1.db
        ≡ elim reply.error [
          | none ↦ w.db
          | some e ↦ after_put (store.put id (task (failed_by (status_text e) t)) w.db) w.db
        ]
  unfolding read_outputs process_task_output
  command_outcome status_text busy request spawn now id w t v g =
      by_error (execute_command busy request spawn).outputs
        (execute_command busy request spawn).error (execute_command-IsUnread busy request spawn)
    where
      by_error :
          (os : List CommandOutput) (error : Option String)
          → All IsUnread os
          → (process_task_output store
              (map
                (λ o. (now, o))
                (read_outputs id
                  (reply_received status_text (record { outputs = os; error = error }))))
              id
              w).1.db
            ≡ elim error as (λ _. S) [
              | none ↦ w.db
              | some e ↦ after_put (store.put id (task (failed_by (status_text e) t)) w.db) w.db
            ]
      by_error os none h =
          rw (read_outputs-unread id os (end_of_stream ∷ []) h)
            (process_unread now id os [] t (λ db. db) h (λ w' g'. refl) w g)
      by_error os (some e) h = rw (read_outputs-unread id os (broken (status_text e) ∷ []) h) (
          process_unread now id os (state_output id "failed" (status_text e) ∷ []) t
            (λ db. after_put (store.put id (task (failed_by (status_text e) t)) db) db) h
            (λ w' g'. process_failed now id (status_text e) t w' v g') w g)
