-- ===== src/Task/Paths.antt =====
-- Sequences of states that ValidStateTransition of internal/core/domain/task/state_machine.go allows.
use devops_platform.Base.{ℕ, ◌≡◌, ◌≢◌, refl, Bool, true, false, ◌&&◌, ◌||◌, List, [], ◌∷◌, ◌==◌}
use devops_platform.Task.State.{
  State, pending, creating, scheduled, starting, running, stopping, completed, failed, other,
  state_eq, valid_state_transition,
}

-- The states before the command runs.
abbrev pub is_before_running : State → Bool
is_before_running running = false
is_before_running stopping = false
is_before_running completed = false
is_before_running _ = true

-- Each state of the list may follow the one before it.
abbrev pub is_path : State → List State → Bool
is_path s [] = true
is_path s (t ∷ ts) = valid_state_transition s t && is_path t ts

abbrev pub last : State → List State → State
last s [] = s
last s (t ∷ ts) = last t ts

abbrev pub has_state : State → List State → Bool
has_state u [] = false
has_state u (t ∷ ts) = t == u || has_state u ts

-- From every named state, `failed` included, allowed transitions lead to `completed`.
pub completed_reachable :
    (s : State)
    → ((n : ℕ) → s ≢ other n)
    → (ts : List State) × (is_path s ts ≡ true) × (last s ts ≡ completed)
unfolding valid_state_transition
completed_reachable pending h = (scheduled ∷ starting ∷ running ∷ completed ∷ [], refl, refl)
completed_reachable creating h = (scheduled ∷ starting ∷ running ∷ completed ∷ [], refl, refl)
completed_reachable scheduled h = (starting ∷ running ∷ completed ∷ [], refl, refl)
completed_reachable starting h = (running ∷ completed ∷ [], refl, refl)
completed_reachable running h = (completed ∷ [], refl, refl)
completed_reachable stopping h = (completed ∷ [], refl, refl)
completed_reachable completed h = ([], refl, refl)
completed_reachable failed h = (scheduled ∷ starting ∷ running ∷ completed ∷ [], refl, refl)
completed_reachable (other n) h = absurd (h n refl)
