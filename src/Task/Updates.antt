-- ===== src/Task/Updates.antt =====
-- Runs of UpdateStatus and what they do to the recorded times (internal/core/domain/task/task.go).
use mathlib.Core.Option.{get_or}
use devops_platform.Base.{
  if◌then◌else◌, ℕ, ◌≡◌, Bool, true, false, String, List, [], ◌∷◌, none, some, sub_ℕ, arith,
}
use devops_platform.Task.State.{State, running, completed, failed}
use devops_platform.Task.Defs.{Task, new_task, update_status, is_complete, duration, validate}

pub record Update : Type 0 where
  pub now : ℕ
  pub state : State
  pub container_id : String
  pub message : String

abbrev pub updated : Task → List Update → Task
updated t [] = t
updated t (u ∷ us) = updated (update_status u.now u.state u.container_id u.message t) us

start_time-update :
    (t : Task) (u : Update) {b : ℕ}
    → t.status.start_time ≡ some b
    → (update_status u.now u.state u.container_id u.message t).status.start_time ≡ some b
unfolding update_status
start_time-update t u h = ground arith

-- A start time that is set is not changed by any later updates of the status.
pub start_time-updated :
    (t : Task) (us : List Update) {b : ℕ}
    → t.status.start_time ≡ some b
    → (updated t us).status.start_time ≡ some b
start_time-updated t [] h = h
start_time-updated t (u ∷ us) h =
    start_time-updated (update_status u.now u.state u.container_id u.message t) us
      (start_time-update t u h)

-- The final states.
abbrev pub is_final : State → Bool
is_final completed = true
is_final failed = true
is_final _ = false

abbrev pub is_running : State → Bool
is_running running = true
is_running _ = false

-- After an update a task is complete exactly if the update's state is final; an update to `running`
-- stamps the start if there is none, and one to a final state stamps the end.
pub update_status_lem :
    (now : ℕ) (s : State) (c m : String) (t : Task)
    → let t' = update_status now s c m t in
      (is_complete t' ≡ is_final s)
      × (t'.status.start_time
          ≡ (if is_running s then some (get_or t.status.start_time now) else t.status.start_time))
      × (t'.status.finish_time ≡ (if is_final s then some now else t.status.finish_time))
unfolding update_status is_complete
update_status_lem now s c m t = (ground arith, ground arith, ground arith)

-- A task with an end and no start, as after a failure before its first run, that is then updated to
-- `running` has for its duration the old end less the new start, whatever the clock says.
pub duration_rerun :
    (t : Task) (now later f : ℕ) (c m : String)
    → t.status.start_time ≡ none
    → t.status.finish_time ≡ some f
    → duration later (update_status now running c m t) ≡ sub_ℕ f now
unfolding duration update_status
duration_rerun t now later f c m hs hf = ground arith

-- A task as NewTask makes it does not validate.
pub not-validate-new_task :
    (fresh now : ℕ) (name image : String) → validate (new_task fresh now name image) ≡ false
unfolding validate new_task
not-validate-new_task fresh now name image = ground arith
