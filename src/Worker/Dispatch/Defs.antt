-- ===== src/Worker/Dispatch/Defs.antt =====
-- internal/adapters/worker/worker_service.go, lines 83 to 154: the moves of the goroutines that share the
-- queue and the counter. A move that is not enabled changes nothing.
use devops_platform.Base.{
  ℕ, zero, suc, ◌+◌, ◌-◌, Bool, true, false, ltb, leb, ◌||◌, List, [], ◌∷◌, ◌++◌, length, Option,
  none, some, Result, ok, err, concat, if◌then◌else◌, ◌==◌, nat_eq,
}
use devops_platform.Task.State.{completed, failed, to_string, state_eq}
use devops_platform.Task.Defs.{Task, Uuid, uuid_nil}

-- Where the dispatcher stands: at its `select`, with a task that it received, in the pause before it
-- queues the task again, or past its `return`.
pub data Phase : Type 0 where
  idle : Phase
  holding : Task → Phase
  pausing : Task → Phase
  stopped : Phase

-- `senders` are the goroutines that are about to send, or block in a send, to the queue `pending` of
-- `queue_size` places; `active` are the goroutines in runTask, `finished` the tasks they are done with.
pub record System : Type 0 where
  pub pending : List Task
  pub queue_size : ℕ
  pub senders : List Task
  pub phase : Phase
  pub active : List Task
  pub finished : List Task
  pub max_concurrent : ℕ
  pub current_running : ℕ
  pub is_cancelled : Bool

unfoldable pub start : ℕ → ℕ → System
start queue_size max_concurrent = record {
  pending = [];
  queue_size = queue_size;
  senders = [];
  phase = idle;
  active = [];
  finished = [];
  max_concurrent = max_concurrent;
  current_running = 0;
  is_cancelled = false;
}

-- What AddTask decides: the task that it sends, with an identifier if it had none, or the error.
unfoldable pub admit : Uuid → Task → Result Task
admit fresh t =
    if t.status.state == completed || t.status.state == failed
    then err (
        concat "AddTask: the task is already in a final state ("
          (concat (to_string t.status.state) ")"))
    else ok (
        if t.metadata.id == uuid_nil
        then record t { metadata = record (t.metadata) { id = fresh } }
        else t)

pub data Move : Type 0 where
  submit : Uuid → Task → Move
  send rendezvous finish : ℕ → Move
  receive check requeue cancel exit : Move

-- The element at a place, and the others.
unfoldable pub extract : List Task → ℕ → Option (Task × List Task)
extract [] i = none
extract (x ∷ xs) zero = some (x, xs)
extract (x ∷ xs) (suc i) = elim (extract xs i) [ none ↦ none | some (y, ys) ↦ some (y, x ∷ ys) ]

unfoldable pub submitted : System → Result Task → System
submitted s (ok t) = record s { senders = s.senders ++ t ∷ [] }
submitted s _ = s

unfoldable pub sent : System → Option (Task × List Task) → System
sent s none = s
sent s (some (t, rest)) =
    if ltb (length s.pending) s.queue_size
    then record s { pending = s.pending ++ t ∷ []; senders = rest }
    else s

-- A receive takes the head of the queue; from an empty one it takes a blocked sender's task.
unfoldable pub received : System → Phase → List Task → System
received s idle (t ∷ rest) = record s { pending = rest; phase = holding t }
received s _ _ = s

unfoldable pub met : System → Phase → List Task → Option (Task × List Task) → System
met s idle [] (some (t, rest)) = record s { senders = rest; phase = holding t }
met s _ _ _ = s

-- The test under the mutex: no slot is free, or the task takes one.
unfoldable pub checked : System → Phase → System
checked s (holding t) =
    if leb s.max_concurrent s.current_running then record s { phase = pausing t } else record s {
      phase = idle;
      active = s.active ++ t ∷ [];
      current_running = s.current_running + 1;
    }
checked s _ = s

unfoldable pub requeued : System → Phase → System
requeued s (pausing t) = record s { phase = idle; senders = s.senders ++ t ∷ [] }
requeued s _ = s

-- The deferred decrement of runTask.
unfoldable pub ended : System → Option (Task × List Task) → System
ended s none = s
ended s (some (t, rest)) = record s {
  active = rest;
  finished = s.finished ++ t ∷ [];
  current_running = s.current_running - 1;
}

unfoldable pub exited : System → Phase → System
exited s idle = if s.is_cancelled then record s { phase = stopped } else s
exited s _ = s

unfoldable pub step : Move → System → System
unfolding admit submitted sent received met checked requeued ended exited
step (submit fresh t) s = submitted s (admit fresh t)
step (send i) s = sent s (extract s.senders i)
step receive s = received s s.phase s.pending
step (rendezvous i) s = met s s.phase s.pending (extract s.senders i)
step check s = checked s s.phase
step requeue s = requeued s s.phase
step (finish i) s = ended s (extract s.active i)
step cancel s = record s { is_cancelled = true }
step exit s = exited s s.phase

unfoldable pub run : List Move → System → System
run [] s = s
run (m ∷ ms) s = run ms (step m s)
