-- ===== src/Tests/LifeCycle.antt =====
-- A task from its container to its end, on a service with an empty in-memory store.
use devops_platform.Base.{
  nat_eq, ◌==◌, ◌≡◌, refl, ok, some, none, pos, true, false, String, [], ◌∷◌, ◌++◌, Map, lookup,
  string_eq,
}
use devops_platform.Task.State.{pending, running, completed, failed, valid_state_transition}
use devops_platform.Task.Defs.{Task}
use devops_platform.Store.Port.{task}
use devops_platform.Store.Memory.Tasks.{get}
use devops_platform.Sandbox.Factory.{new_container_sandbox_service}
use devops_platform.Worker.Defs.{
  WorkerService, WorkerInstance, CommandOutput, with_state, notify_observers,
}
use devops_platform.Worker.Create.{create_container}
use devops_platform.Worker.Running.{register_worker, process_task_output}
use devops_platform.Worker.Stopping
use devops_platform.Worker.Stopping.{stop_task, check_task_health}
use devops_platform.Worker.LifeCycle.Whole.{task_completes}
use devops_platform.Worker.Observers.{register_all, notify-register_all}
use devops_platform.Grpc.Streams as Streams
use devops_platform.Grpc.Streams.{received, serve_health_check}
use devops_platform.Grpc.Late.{stopped_then_failed, in_completed}
use devops_platform.Tests.Fixtures.{task_in, id_string, store, docker, constructors, service_with}

abbrev empty_service : WorkerService (Map String Task)
empty_service = record (service_with (task_in pending)) { db = [] }

abbrev worker : WorkerInstance
worker = record {
  id = "c1";
  name = "worker";
  address = "localhost";
  port = pos 50051;
  is_healthy = true;
  is_busy = false;
}

abbrev output_of : String → CommandOutput
output_of state = record {
  process_id = "1";
  is_stderr = false;
  content = "";
  state = state;
  exit_code = pos 0;
  error_msg = "";
}

task_completes_example :
    let made = create_container store id_string constructors (task_in pending) empty_service in
    let started = register_worker store id_string worker made.1 in
    let ended =
      process_task_output store
        ((5, output_of "running") ∷ (6, output_of "completed") ∷ [])
        "1"
        started.1 in
    (made.0 ≡ ok tt)
    × (started.0 ≡ ok tt)
    × (ended.0 ≡ ok tt)
    × (t' : Task) × (get "1" ended.1.db ≡ ok (task t'))
    × (t'.status.state ≡ completed)
    × (t'.status.finish_time ≡ some 6)
    × (t'.status.container_id ≡ "c1")
    × (t'.metadata ≡ (task_in pending).metadata)
unfolding valid_state_transition new_container_sandbox_service
task_completes_example =
    task_completes (λ m. m) id_string constructors (task_in pending) empty_service docker worker
      ((5, output_of "running") ∷ []) 6 (output_of "completed") (λ m a. (λ h. h, λ h. h)) refl refl
      refl (λ a h. elim h [ ]) refl (refl, tt) refl

stopped_then_failed_example :
    let stopped =
      stop_task store id_string constructors 9 (task_in running) (service_with (task_in running)) in
    let events =
      received (serve_health_check (Streams.request none ∷ [])).0 ++ Stopping.timed_out ∷ [] in
    let late = check_task_health store id_string (task_in running) events stopped.1 in
    (stopped.0 ≡ ok tt)
    × (get "1" stopped.1.db ≡ ok (task (in_completed 9 (task_in running))))
    × (get "1" late.1.db ≡ ok (task (with_state failed "health check timeout" (task_in running))))
unfolding new_container_sandbox_service
stopped_then_failed_example =
    stopped_then_failed (λ m. m) id_string constructors 9 (task_in running)
      (Streams.request none ∷ []) (service_with (task_in running)) docker refl refl refl

-- Both registrations for "1" are of the observer 7.
notify-register_all_example :
    (notify_observers "1"
        (output_of "running")
        (register_all (("1", 7) ∷ ("2", 8) ∷ ("1", 7) ∷ []) empty_service)).1.notified
      (λ c. c.0 == 7)
    ≡ 2
unfolding lookup
notify-register_all_example =
    notify-register_all (("1", 7) ∷ ("2", 8) ∷ ("1", 7) ∷ []) "1" (output_of "running")
      empty_service (λ c. c.0 == 7)
