-- ===== src/Task/State.antt =====
-- internal/core/domain/task/state_machine.go: the states of a task and the table of transitions.
use devops_platform.Base.{
  ℕ, ◌+◌, ◌≡◌, ◌↔◌, Bool, true, false, List, [], ◌∷◌, String, arith, Comparable, ◌==◌, nat_beq,
  if◌then◌else◌,
}

-- `type State int`: the eight named values; `other n` is the value n + 8, which only decoded JSON has.
pub data State : Type 0 where
  pending creating scheduled starting running stopping completed failed : State
  other : ℕ → State

abbrev pub to_int : State → ℕ
to_int pending = 0
to_int creating = 1
to_int scheduled = 2
to_int starting = 3
to_int running = 4
to_int stopping = 5
to_int completed = 6
to_int failed = 7
to_int (other n) = n + 8

abbrev pub state_beq : State → State → Bool
state_beq s t = nat_beq (to_int s) (to_int t)

pub state_beq_iff : (s t : State) → (state_beq s t ≡ true) ↔ (s ≡ t)
state_beq_iff s t = ground arith

instance abbrev pub state_eq : Comparable State
state_eq = record { equal = state_beq; equal_iff = state_beq_iff }

unfoldable pub all_states : List String
all_states =
    "Pending" ∷ "Creating" ∷ "Scheduled" ∷ "Starting" ∷ "Running" ∷ "Stopping" ∷ "Completed"
    ∷ "Failed" ∷ []

-- State.String
unfoldable pub to_string : State → String
to_string pending = "Pending"
to_string creating = "Creating"
to_string scheduled = "Scheduled"
to_string starting = "Starting"
to_string running = "Running"
to_string stopping = "Stopping"
to_string completed = "Completed"
to_string failed = "Failed"
to_string (other n) = "Unknown"

-- A state that is no key of the map has no transitions.
unfoldable pub state_transition_map : State → List State
state_transition_map pending = pending ∷ creating ∷ scheduled ∷ []
state_transition_map creating = creating ∷ scheduled ∷ failed ∷ []
state_transition_map scheduled = scheduled ∷ starting ∷ failed ∷ []
state_transition_map starting = starting ∷ running ∷ failed ∷ []
state_transition_map running = running ∷ stopping ∷ completed ∷ failed ∷ scheduled ∷ []
state_transition_map stopping = stopping ∷ completed ∷ failed ∷ []
state_transition_map completed = []
state_transition_map failed = scheduled ∷ []
state_transition_map (other n) = []

unfoldable pub contains : List State → State → Bool
contains [] state = false
contains (s ∷ states) state = if s == state then true else contains states state

unfoldable pub valid_state_transition : State → State → Bool
unfolding state_transition_map contains
valid_state_transition src dst = contains (state_transition_map src) dst
