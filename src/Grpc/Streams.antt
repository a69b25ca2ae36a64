-- ===== src/Grpc/Streams.antt =====
-- The health and metrics streams: StartHealthCheck and StartMetricsCollection of
-- internal/adapters/grpc/client/worker_client.go, and TerminateProcess, HealthCheck and ReportMetrics of
-- internal/adapters/grpc/server/worker_process_server.go.
use devops_platform.Base.{
  ◌≡◌, refl, Bool, true, false, String, concat, List, [], ◌∷◌, ◌++◌, ◌==◌, Option, none, some,
  Result, ok, err, panic,
}
use devops_platform.Task.State.{running, state_eq}
use devops_platform.Task.Defs.{Task, Uuid}
use devops_platform.Store.Port.{Store}
use devops_platform.Worker.Defs.{WorkerService, fail_task}
use devops_platform.Worker.Stopping.{HealthEvent, health_loop, check_task_health}
use devops_platform.Worker.Stopping as Stopping

-- One turn of the client's loop: a request that cannot be sent, the end of the stream, an error of Recv, a
-- response that is handed over, or the end of the context, before the ticker or before the hand-over.
pub data Turn (A : Type 0) : Type 0 where
  unsent : String → Turn A
  finished : Turn A
  broken : String → Turn A
  handed : A → Turn A
  done : Turn A

-- The values that reach the channel, and whether the goroutine has ended, which closes the channel.
unfoldable pub delivered : {A : Type 0} → List (Turn A) → List A × Bool
delivered [] = ([], false)
delivered (handed a ∷ turns) = let (values, is_closed) = delivered turns in (a ∷ values, is_closed)
delivered (unsent e ∷ turns) = ([], true)
delivered (finished ∷ turns) = ([], true)
delivered (broken e ∷ turns) = ([], true)
delivered (done ∷ turns) = ([], true)

-- StartHealthCheck and StartMetricsCollection, on the answer to the call that opens the stream: no goroutine
-- starts, and the channel stays open, where that fails.
unfoldable pub start_health_check :
    Result (Unit {0}) → List (Turn (Bool × String)) → Result (List (Bool × String) × Bool)
unfolding delivered
start_health_check (ok stream) turns = ok (delivered turns)
start_health_check (err e) turns = err (concat "failed to create health check stream: " e)
start_health_check panic turns = panic

pub record Metrics : Type 0 where
  pub cpu_usage : String
  pub mem_usage : String
  pub disk_usage : String

unfoldable pub start_metrics_collection :
    Result (Unit {0}) → List (Turn Metrics) → Result (List Metrics × Bool)
unfolding delivered
start_metrics_collection (ok stream) turns = ok (delivered turns)
start_metrics_collection (err e) turns = err (concat "failed to create metrics stream: " e)
start_metrics_collection panic turns = panic

-- What the server's loop receives: a request, with the error of the Send that answers it, the end of the
-- stream, or an error.
pub data Incoming : Type 0 where
  request : Option String → Incoming
  end_of_stream : Incoming
  failure : String → Incoming

-- The responses that the server sends before it returns, and what it returns, if it does.
unfoldable pub serve : {A : Type 0} → A → List Incoming → List A × Option (Option String)
serve response [] = ([], none)
serve response (end_of_stream ∷ rest) = ([], some none)
serve response (failure e ∷ rest) = ([], some (some e))
serve response (request (some e) ∷ rest) = ([], some (some e))
serve response (request none ∷ rest) =
    let (sent, returned) = serve response rest in (response ∷ sent, returned)

unfoldable pub serve_health_check : List Incoming → List (Bool × String) × Option (Option String)
unfolding serve
serve_health_check = serve (true, "Worker OK")

unfoldable pub serve_report_metrics : List Incoming → List Metrics × Option (Option String)
unfolding serve
serve_report_metrics = serve (record { cpu_usage = "5%"; mem_usage = "128MB"; disk_usage = "10GB" })

-- Whether the process ended, which is never asked, and the message.
unfoldable pub serve_terminate_process : String → Bool × String
serve_terminate_process process_id = (true, "Proceso terminado (simulado)")

-- What CheckTaskHealth's `select` can receive of the channel.
abbrev pub received : List (Bool × String) → List HealthEvent
received [] = []
received ((is_healthy, status) ∷ rest) = Stopping.response is_healthy status ∷ received rest

module _ {S : Type 0} (store : Store S) (id_string : Uuid → String) where
  served-health_loop :
      (t : Task) (requests : List Incoming) (events : List HealthEvent) (w : WorkerService S)
      → health_loop store id_string t (received (serve_health_check requests).0 ++ events) w
        ≡ health_loop store id_string t events w
  unfolding serve serve_health_check health_loop
  served-health_loop t [] events w = refl
  served-health_loop t (end_of_stream ∷ rest) events w = refl
  served-health_loop t (failure e ∷ rest) events w = refl
  served-health_loop t (request (some e) ∷ rest) events w = refl
  served-health_loop t (request none ∷ rest) events w = served-health_loop t rest events w

  -- However many requests the worker's HealthCheck answers, CheckTaskHealth of a running task changes
  -- nothing when the stream is closed after those answers, and fails the task when the time is up after
  -- them.
  pub check_task_health-served :
      (t : Task) (requests : List Incoming) (w : WorkerService S)
      → t.status.state ≡ running
      → let answers = received (serve_health_check requests).0 in
        (check_task_health store id_string t (answers ++ Stopping.closed ∷ []) w ≡ (ok tt, w))
        × (check_task_health store id_string t (answers ++ Stopping.timed_out ∷ []) w
            ≡ fail_task store id_string t "health check timeout" w)
  unfolding check_task_health health_loop
  check_task_health-served t requests w r =
      let runs : (t.status.state == running) ≡ true = rw r refl in
      (
        rw runs (served-health_loop t requests (Stopping.closed ∷ []) w),
        rw runs (served-health_loop t requests (Stopping.timed_out ∷ []) w),
      )
