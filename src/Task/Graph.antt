-- ===== src/Task/Graph.antt =====
-- The transition table of internal/core/domain/task/state_machine.go as a relation, for inductions on paths.
use devops_platform.Base.{◌≡◌, refl, true, arith}
use devops_platform.Task.State.{
  State, pending, creating, scheduled, starting, running, stopping, completed, failed,
  valid_state_transition,
}

-- The states that a task can leave by failing.
pub data IsActive : State → Type 0 where
  creating_active : IsActive creating
  scheduled_active : IsActive scheduled
  starting_active : IsActive starting
  running_active : IsActive running
  stopping_active : IsActive stopping

infix 40 ◌⟶◌ ◌⟶*◌
pub data ◌⟶◌ : State → State → Type 0 where
  wait : pending ⟶ pending
  create : pending ⟶ creating
  schedule : pending ⟶ scheduled
  stay : {s : State} → IsActive s → s ⟶ s
  created : creating ⟶ scheduled
  start : scheduled ⟶ starting
  run : starting ⟶ running
  stop : running ⟶ stopping
  finish : running ⟶ completed
  finish_stopped : stopping ⟶ completed
  fail : {s : State} → IsActive s → s ⟶ failed
  reschedule : running ⟶ scheduled
  restart : failed ⟶ scheduled

pub data ◌⟶*◌ : State → State → Type 0 where
  here : {s : State} → s ⟶* s
  then : {from via to : State} → from ⟶ via → via ⟶* to → from ⟶* to

ruleset actives =
    (creating_active, scheduled_active, starting_active, running_active, stopping_active)

ruleset edges = (
  wait, create, schedule, stay, created, start, run, stop, finish, finish_stopped, fail, reschedule,
  restart,
)

pub trans : {s t u : State} → s ⟶* t → t ⟶* u → s ⟶* u
trans here r = r
trans (then e q) r = then e (trans q r)

pub one : {s t : State} → s ⟶ t → s ⟶* t
one e = then e here

pub edge-of-valid : (s t : State) → valid_state_transition s t ≡ true → s ⟶ t
unfolding valid_state_transition
edge-of-valid s t h = grind (arith, edges, actives)

pub valid-of-edge : {s t : State} → s ⟶ t → valid_state_transition s t ≡ true
unfolding valid_state_transition
valid-of-edge wait = refl
valid-of-edge create = refl
valid-of-edge schedule = refl
valid-of-edge (stay creating_active) = refl
valid-of-edge (stay scheduled_active) = refl
valid-of-edge (stay starting_active) = refl
valid-of-edge (stay running_active) = refl
valid-of-edge (stay stopping_active) = refl
valid-of-edge created = refl
valid-of-edge start = refl
valid-of-edge run = refl
valid-of-edge stop = refl
valid-of-edge finish = refl
valid-of-edge finish_stopped = refl
valid-of-edge (fail creating_active) = refl
valid-of-edge (fail scheduled_active) = refl
valid-of-edge (fail starting_active) = refl
valid-of-edge (fail running_active) = refl
valid-of-edge (fail stopping_active) = refl
valid-of-edge reschedule = refl
valid-of-edge restart = refl

not-completed-⟶ : {t : State} → completed ⟶ t → ⊥
unfolding valid_state_transition
not-completed-⟶ e = cc (valid-of-edge e)

-- Nothing leaves `completed`.
pub completed_final : {t : State} → completed ⟶* t → t ≡ completed
completed_final here = refl
completed_final (then e r) = absurd (not-completed-⟶ e)

⟶-pending : {s : State} → s ⟶ pending → s ≡ pending
⟶-pending wait = refl
⟶-pending (stay a) = refl

-- No task comes back to `pending`.
pub pending_initial : {s : State} → s ⟶* pending → s ≡ pending
pending_initial here = refl
pending_initial (then e r) = ⟶-pending (rw (pending_initial r) at e)
