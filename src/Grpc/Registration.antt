-- ===== src/Grpc/Registration.antt =====
-- The registration of a worker: worker/main.go, internal/adapters/grpc/client/manager_client.go and
-- internal/adapters/grpc/server/manager_registry_server.go.
use devops_platform.Base.{
  ℕ, zero, suc, ◌+◌, ◌<◌, ◌≤◌, ◌≡◌, ℤ, Bool, true, false, String, concat, Option, none, some,
  Result, ok, err, panic, bind, ◌==◌, string_eq, if◌then◌else◌, arith,
}
use native.Mathlib.Decide.{ℕ_discrete}
use devops_platform.Task.Defs.{Uuid}
use devops_platform.Store.Port.{Store}
use devops_platform.Worker.Defs.{WorkerService, WorkerInstance}
use devops_platform.Worker.Running.{register_worker}

-- os.Getenv, with the default of tryRegisterToManager for an empty answer.
abbrev pub or_default : String → String → String
or_default value default = if value == "" then default else value

-- What one attempt meets: the environment, grpc.Dial, and the response of RegisterWorker, which says
-- whether it succeeded and why not.
pub record Attempt : Type 0 where
  pub manager_host : String
  pub manager_port : String
  pub dial : String → Result (Unit {0})
  pub respond : Result (Bool × String)

answered : Bool × String → Result (Unit {0})
answered (true, message) = ok tt
answered (false, message) = err (concat "fallo al registrar worker: " message)

unfoldable pub try_register_to_manager : Attempt → Result (Unit {0})
unfolding answered
try_register_to_manager a =
    let addr =
      concat (or_default a.manager_host "localhost")
        (concat ":" (or_default a.manager_port "50051")) in
    bind (a.dial addr) λ _. bind a.respond answered

abbrev pub max_retries : ℕ
max_retries = 5

-- The loop of registerToManager from attempt `i` on, with `left` more: whether it registered, and how
-- many attempts it made.
register_from : ℕ → ℕ → (ℕ → Attempt) → Bool × ℕ
register_from zero i attempts = (false, i)
register_from (suc left) i attempts =
    let rest = register_from left (i + 1) attempts in
    elim (try_register_to_manager (attempts i)) [ ok _ ↦ (true, i + 1) | _ ↦ rest ]

unfoldable pub register_to_manager : (ℕ → Attempt) → Bool × ℕ
unfolding register_from
register_to_manager attempts = register_from max_retries 0 attempts

-- ManagerClient.RegisterWorker: a refusal in the response is logged, and is no error.
unfoldable pub manager_client_register : Result (Bool × String) → Option String
manager_client_register (ok answer) = none
manager_client_register (err e) = some e
manager_client_register panic = none

-- RegisterWorkerRequest and RegisterWorkerResponse of manager.proto.
pub record RegisterRequest : Type 0 where
  pub worker_id : String
  pub worker_name : String
  pub address : String
  pub port : ℤ

pub record RegisterResponse : Type 0 where
  pub success : Bool
  pub message : String

unfoldable pub instance_of : RegisterRequest → WorkerInstance
instance_of req = record {
  id = req.worker_id;
  name = req.worker_name;
  address = req.address;
  port = req.port;
  is_healthy = true;
  is_busy = false;
}

answer : Result (Unit {0}) → Result (RegisterResponse × Option String)
answer (ok _) =
    ok (record { success = true; message = "WorkerInstance registrado correctamente" }, none)
answer (err e) = ok (record { success = false; message = e }, some e)
answer panic = panic

-- workerRegistrationServer.RegisterWorker: the response with its error.
unfoldable pub serve_register_worker :
    {S : Type 0}
    → Store S
    → (Uuid → String)
    → RegisterRequest
    → WorkerService S
    → Result (RegisterResponse × Option String) × WorkerService S
unfolding instance_of answer
serve_register_worker store id_string req w =
    let (r, w') = register_worker store id_string (instance_of req) w in (answer r, w')

-- The attempt ends in an error.
abbrev pub Fails : Attempt → Type 0
Fails a = (e : String) × (try_register_to_manager a ≡ err e)

register_from-Fails :
    (left i : ℕ) (attempts : ℕ → Attempt)
    → ((j : ℕ) → j < i + left → Fails (attempts j))
    → register_from left i attempts ≡ (false, i + left)
unfolding register_from
register_from-Fails zero i attempts f = ground arith
register_from-Fails (suc left) i attempts f =
    let (e, fails) = f i (omega arith) in
    ground (arith, register_from-Fails left (i + 1) attempts (λ j h. f j (omega arith)))

register_from_succeeds :
    (left i k : ℕ) (attempts : ℕ → Attempt)
    → i ≤ k
    → k < i + left
    → ((j : ℕ) → j < k → Fails (attempts j))
    → try_register_to_manager (attempts k) ≡ ok tt
    → register_from left i attempts ≡ (true, k + 1)
unfolding register_from
register_from_succeeds zero i k attempts l h f s = absurd (omega arith)
register_from_succeeds (suc left) i k attempts l h f s = elim (ℕ_discrete i k) [
  | yes same ↦ rw same (rw (s, register_from))
  | no other ↦
      let (e, fails) = f i (omega arith) in
      ground (arith, register_from_succeeds left (i + 1) k attempts (omega arith) (omega arith) f s)
]

-- A worker registers at its first attempt that succeeds, if that is one of the first five, and makes
-- no further one.
pub registers_at_first_success :
    (attempts : ℕ → Attempt) (k : ℕ)
    → k < max_retries
    → ((j : ℕ) → j < k → Fails (attempts j))
    → try_register_to_manager (attempts k) ≡ ok tt
    → register_to_manager attempts ≡ (true, k + 1)
unfolding register_to_manager
registers_at_first_success attempts k h f s =
    register_from_succeeds max_retries 0 k attempts (omega arith) (omega arith) f s

-- If the first five attempts fail, a worker gives up after exactly those.
pub gives_up_after_five :
    (attempts : ℕ → Attempt)
    → ((j : ℕ) → j < max_retries → Fails (attempts j))
    → register_to_manager attempts ≡ (false, max_retries)
unfolding register_to_manager
gives_up_after_five attempts f =
    register_from-Fails max_retries 0 attempts (λ j l. f j (omega arith))
