-- ===== src/Tests/Workers.antt =====
-- The methods of the worker service on a store with one task.
use devops_platform.Base.{refl, pos, true, false, [], ◌∷◌, String, lookup, string_eq}
use devops_platform.Task.State.{pending, running}
use devops_platform.Store.Memory.Laws.{memory_laws}
use devops_platform.Store.Memory.Tasks.{get}
use devops_platform.Worker.Defs.{WorkerInstance, CommandOutput}
use devops_platform.Worker.Create.{create_container}
use devops_platform.Worker.Running.{process_task_output}
use devops_platform.Worker.Stopping.{stop_task}
use devops_platform.Worker.Follows.Rules.{Follows}
use devops_platform.Worker.Follows.Sandboxed
use devops_platform.Worker.Follows.Output
use devops_platform.Tests.Fixtures.{task_in, id_string, store, constructors, service_with}

create_container_example :
    Follows
      (memory_laws λ m. m)
      pending
      "1"
      (service_with (task_in pending)).db
      (create_container store id_string constructors
        (task_in pending)
        (service_with (task_in pending))).1.db
create_container_example =
    Sandboxed.create_container-Follows (memory_laws λ m. m) id_string constructors (task_in pending)
      (service_with (task_in pending)) (tt, tt)

stop_task_example :
    Follows
      (memory_laws λ m. m)
      running
      "1"
      (service_with (task_in running)).db
      (stop_task store id_string constructors 9
        (task_in running)
        (service_with (task_in running))).1.db
stop_task_example =
    Sandboxed.stop_task-Follows (memory_laws λ m. m) id_string constructors 9 (task_in running)
      (service_with (task_in running)) (tt, tt)

abbrev worker : WorkerInstance
worker = record {
  id = "c1";
  name = "worker";
  address = "localhost";
  port = pos 50051;
  is_healthy = true;
  is_busy = false;
}

abbrev output_of : String → CommandOutput
output_of state = record {
  process_id = "1";
  is_stderr = false;
  content = "";
  state = state;
  exit_code = pos 0;
  error_msg = "";
}

process_task_output_example :
    Follows
      (memory_laws λ m. m)
      running
      "1"
      (service_with (task_in running)).db
      (process_task_output store
        ((5, output_of "running") ∷ (6, output_of "completed") ∷ [])
        "1"
        (service_with (task_in running))).1.db
unfolding get lookup
process_task_output_example =
    Output.process_task_output-Follows (memory_laws λ m. m)
      ((5, output_of "running") ∷ (6, output_of "completed") ∷ []) "1"
      (service_with (task_in running)) (task_in running) (tt, tt) refl
