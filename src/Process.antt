-- ===== src/Process.antt =====
-- internal/core/usecase/process_store.go, with internal/core/domain/process.go and states.go: the store of
-- process states.
use devops_platform.Base.{
  ◌≡◌, ℤ, pos, String, concat, List, Map, lookup, insert, Option, none, some, Result, ok, err, ◌==◌,
  string_eq, if◌then◌else◌, lookup-insert,
}

pub data ProcessState : Type 0 where
  pending scheduled running completed failed busy aborted : ProcessState

pub record ProcessRequest : Type 0 where
  pub id : String
  pub command : List String
  pub working_dir : String
  pub env_vars : Map String String

pub record ProcessStatus : Type 0 where
  pub process_id : String
  pub state : ProcessState
  pub exit_code : ℤ
  pub error_msg : String

abbrev pub Processes : Type 0
Processes = Map String ProcessStatus

unfoldable pub schedule_process : ProcessRequest → Processes → ProcessStatus × Processes
schedule_process req m =
    let status : ProcessStatus = record {
      process_id = req.id;
      state = pending;
      exit_code = pos 0;
      error_msg = "";
    } in
    (status, insert req.id status m)

updated_process :
    String → ProcessState → ℤ → String → Processes → Option ProcessStatus → Result Processes
updated_process id state code e m none = err (concat "proceso no encontrado: " id)
updated_process id state code e m (some s) =
    ok (insert id (record s { state = state; exit_code = code; error_msg = e }) m)

unfoldable pub update_process_state :
    String → ProcessState → ℤ → String → Processes → Result Processes
unfolding updated_process
update_process_state id state code e m = updated_process id state code e m (lookup id m)

-- An update of a process that was never scheduled is an error.
update_process_state_missing :
    (id : String) (state : ProcessState) (code : ℤ) (e : String) (m : Processes)
    → lookup id m ≡ none
    → update_process_state id state code e m ≡ err (concat "proceso no encontrado: " id)
unfolding update_process_state
update_process_state_missing id state code e m h = rw h

-- An update of a stored process succeeds: it gives that process the new state, code and message under
-- its own identifier, and leaves every other process alone.
pub update_process_state_lem :
    (id j : String) (state : ProcessState) (code : ℤ) (e : String) (m : Processes)
    (s : ProcessStatus)
    → lookup id m ≡ some s
    → (m' : Processes) × (update_process_state id state code e m ≡ ok m')
      × (lookup j m' ≡ (
          if id == j
          then some
              (record { process_id = s.process_id; state = state; exit_code = code; error_msg = e })
          else lookup j m))
unfolding update_process_state
update_process_state_lem id j state code e m s h =
    let s' = record s { state = state; exit_code = code; error_msg = e } in
    (insert id s' m, rw h, lookup-insert id j s' m)
