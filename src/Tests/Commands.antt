-- ===== src/Tests/Commands.antt =====
-- A command and a registration, end to end.
use devops_platform.Base.{
  concat, some, insert, ◌≡◌, refl, ℕ, zero, suc, ◌<◌, Bool, String, List, true, false, ok, err,
  panic, none, [], ◌∷◌, ◌++◌, map, arith, lookup,
}
use devops_platform.Task.State.{running, valid_state_transition}
use devops_platform.Store.Memory.Tasks.{get, put}
use devops_platform.Grpc.Server.{
  Request, Process, exited, execute_command, run_process, line_output, final_output,
}
use devops_platform.Grpc.Readers.{
  process_of, of_stream, IsPrefix, read_lines, outputs_by_stream, execute_command-unterminated,
}
use devops_platform.Grpc.Client.{read_outputs}
use devops_platform.Grpc.Words.{command_outcome, reply_received, failed_by}
use devops_platform.Grpc.Registration.{
  Attempt, Fails, try_register_to_manager, register_to_manager, registers_at_first_success,
}
use devops_platform.Worker.Running.{process_task_output}
use devops_platform.Worker.Stopping.{check_task_health}
use devops_platform.Worker.Stopping as Stopping
use devops_platform.Grpc.Streams.{Incoming, received, serve_health_check, check_task_health-served}
use devops_platform.Grpc.Streams as Streams
use devops_platform.Tests.Fixtures.{task_in, store, service_with, id_string}

abbrev request : Request
request = record { process_id = "1"; command = "make" ∷ []; working_dir = ""; env_vars = [] }

abbrev make : Process
make = record { start_error = none; lines = (false, "ok") ∷ []; wait = exited; late = [] }

-- The program does not exist.
abbrev missing : Process
missing = record { start_error = some "not found"; lines = []; wait = exited; late = [] }

command_outcome_example :
    (process_task_output store
      (map
        (λ o. (5, o))
        (read_outputs "1"
          (reply_received (concat "rpc: ") (execute_command false (ok request) (λ r. missing)))))
      "1"
      (service_with (task_in running))).1.db
    ≡ ("1", failed_by "rpc: not found" (task_in running)) ∷ []
unfolding get put insert lookup execute_command run_process valid_state_transition
command_outcome_example =
    command_outcome store (concat "rpc: ") false (ok request) (λ r. missing) 5 "1"
      (service_with (task_in running)) (task_in running) refl refl

-- The first line of stdout is sent, then that of stderr, the final message, and the second line of stdout.
outputs_by_stream_example :
    let reply =
      execute_command false
        (ok request)
        (λ r. process_of (false ∷ true ∷ []) (false ∷ []) "a\nb\n" "c\n" exited) in
    (lines late : List (Bool × String)) × (reply.outputs
      ≡ map (line_output "1") lines ++ final_output "1" exited ∷ map (line_output "1") late)
    × IsPrefix (of_stream false (lines ++ late)) (read_lines "" "a\nb\n")
    × IsPrefix (of_stream true (lines ++ late)) (read_lines "" "c\n")
outputs_by_stream_example =
    outputs_by_stream request (false ∷ true ∷ []) (false ∷ []) "a\nb\n" "c\n" exited refl

-- "b" stands after the last newline, and stderr is empty.
execute_command-unterminated_example :
    execute_command false
      (ok request)
      (λ r. process_of (false ∷ true ∷ false ∷ []) [] "a\nb" "" exited)
    ≡ execute_command false
        (ok request)
        (λ r. process_of (false ∷ true ∷ false ∷ []) [] "a\n" "" exited)
execute_command-unterminated_example =
    execute_command-unterminated request (false ∷ true ∷ false ∷ []) [] "a\nb" "" exited

abbrev refused : Attempt
refused = record {
  manager_host = "";
  manager_port = "";
  dial = λ addr. err "connection refused";
  respond = panic;
}

abbrev accepted : Attempt
accepted = record {
  manager_host = "manager";
  manager_port = "";
  dial = λ addr. ok tt;
  respond = ok (true, "");
}

refused-Fails : Fails refused
unfolding try_register_to_manager
refused-Fails = ("connection refused", refl)

accepted_lem : try_register_to_manager accepted ≡ ok tt
unfolding try_register_to_manager
accepted_lem = refl

-- The manager answers from the second attempt on.
abbrev late : ℕ → Attempt
late zero = refused
late (suc i) = accepted

late-Fails : (j : ℕ) → j < 1 → Fails (late j)
late-Fails zero h = refused-Fails
late-Fails (suc j) h = absurd (omega arith)

registers_at_first_success_example : register_to_manager late ≡ (true, 2)
registers_at_first_success_example =
    registers_at_first_success late 1 (omega arith) late-Fails accepted_lem

abbrev answered : Incoming
answered = Streams.request none

check_task_health-served_example :
    check_task_health store id_string
      (task_in running)
      (received (serve_health_check (answered ∷ answered ∷ [])).0 ++ Stopping.closed ∷ [])
      (service_with (task_in running))
    ≡ (ok tt, service_with (task_in running))
check_task_health-served_example =
    (check_task_health-served store id_string (task_in running) (answered ∷ answered ∷ [])
      (service_with (task_in running)) refl).0
