-- ===== src/Grpc/Server.antt =====
-- internal/adapters/grpc/server/worker_process_server.go: the worker's side of ExecuteCommand, with the
-- process that it runs as an argument; the stream accepts what is sent.
use devops_platform.Base.{
  ℤ, pos, Bool, true, false, String, concat, List, [], ◌∷◌, ◌++◌, map, Option, none, some, Map,
  Result, ok, err, panic, ltb, length, if◌then◌else◌,
}
use devops_platform.Worker.Defs.{CommandOutput}

-- ExecuteCommandRequest of worker.proto.
pub record Request : Type 0 where
  pub process_id : String
  pub command : List String
  pub working_dir : String
  pub env_vars : Map String String

-- How cmd.Wait ends: no error, an *exec.ExitError with its code, or another error.
pub data Wait : Type 0 where
  exited : Wait
  exit_error : ℤ → String → Wait
  failed_wait : String → Wait

-- The process: the error of Start, the lines that the two readers send, each with whether it is of
-- stderr, the end, and the lines that they still send after the final message, before the call has
-- returned, since nothing waits for them.
pub record Process : Type 0 where
  pub start_error : Option String
  pub lines : List (Bool × String)
  pub wait : Wait
  pub late : List (Bool × String)

-- What a call sends on the stream, and the error that it returns.
pub record Reply : Type 0 where
  pub outputs : List CommandOutput
  pub error : Option String

abbrev output : String → Bool → String → String → ℤ → String → CommandOutput
output id is_stderr content state exit_code error_msg = record {
  process_id = id;
  is_stderr = is_stderr;
  content = content;
  state = state;
  exit_code = exit_code;
  error_msg = error_msg;
}

unfoldable pub line_output : String → Bool × String → CommandOutput
line_output id (is_stderr, line) = output id is_stderr line "RUNNING" (pos 0) ""

unfoldable pub final_output : String → Wait → CommandOutput
final_output id exited = output id false "Proceso finalizado" "COMPLETED" (pos 0) ""
final_output id (exit_error code e) = output id false "Proceso finalizado" "FAILED" code e
final_output id (failed_wait e) = output id false "Proceso finalizado" "FAILED" (pos 0) e

-- From the received request on, with the process that Start and Wait give.
unfoldable pub run_process : Request → (Request → Process) → Reply
unfolding line_output final_output
run_process req spawn =
    let id = req.process_id in
    if ltb 0 (length req.command)
    then (elim (spawn req).start_error [
      | some e ↦ record {
        outputs = output id true (concat "Error al iniciar proceso: " e) "FAILED" (pos 0) "" ∷ [];
        error = some e;
      }
      | none ↦ record {
        outputs =
            map (line_output id) (spawn req).lines
            ++ final_output id (spawn req).wait ∷ map (line_output id) (spawn req).late;
        error = none;
      }
    ])
    else record {
      outputs = output id true "No se especificó comando" "FAILED" (pos 1) "" ∷ [];
      error = none;
    }

received : Result Request → (Request → Process) → Reply
unfolding run_process
received (ok req) spawn = run_process req spawn
received (err e) spawn = record { outputs = []; error = some e }
received panic spawn = record { outputs = []; error = none }

-- A busy worker answers at once. The deferred reset leaves the worker free after every other call.
unfoldable pub execute_command : Bool → Result Request → (Request → Process) → Reply
unfolding received
execute_command true request spawn = record {
  outputs = output "0" true "Worker ocupado" "BUSY" (pos 0) "" ∷ [];
  error = none;
}
execute_command false request spawn = received request spawn
