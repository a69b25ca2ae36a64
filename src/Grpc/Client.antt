-- ===== src/Grpc/Client.antt =====
-- internal/adapters/grpc/client/worker_client.go: the manager's side of ExecuteCommand, over what its stream
-- gives, and TerminateProcess.
use devops_platform.Base.{
  Bool, true, false, String, concat, List, [], ◌∷◌, Option, none, some, Result, ok, err, panic,
  if◌then◌else◌, string_eq,
}
use devops_platform.Worker.Defs.{CommandOutput, state_output}
use devops_platform.Worker.Output.{is_last}

-- What Recv gives: a response, the end of the stream, or an error.
pub data Received : Type 0 where
  response : CommandOutput → Received
  end_of_stream : Received
  broken : String → Received

-- The goroutine of ExecuteCommand: the outputs that it sends to the channel, until the context ends.
unfoldable pub read_outputs : String → List Received → List CommandOutput
unfolding is_last
read_outputs process_id [] = []
read_outputs process_id (response resp ∷ rest) =
    let outputs = read_outputs process_id rest in
    resp ∷ (if is_last resp.state then [] else outputs)
read_outputs process_id (end_of_stream ∷ rest) = []
read_outputs process_id (broken e ∷ rest) = state_output process_id "failed" e ∷ []

-- TerminateProcess, over the response: whether it succeeded, and its message.
unfoldable pub terminate_process : Result (Bool × String) → Option String
terminate_process (ok (true, message)) = none
terminate_process (ok (false, message)) = some (concat "failed to terminate process: " message)
terminate_process (err e) = some (concat "failed to terminate process: " e)
terminate_process panic = none
