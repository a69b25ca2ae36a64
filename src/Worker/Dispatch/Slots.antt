-- ===== src/Worker/Dispatch/Slots.antt =====
-- The counter of running tasks in internal/adapters/worker/worker_service.go and the tasks that run.
use devops_platform.Base.{
  ℕ, zero, suc, ◌≤◌, ◌≡◌, refl, ◌∙◌, List, [], ◌∷◌, ◌++◌, length, length-append, Option, none, some,
  arith,
}
use devops_platform.Task.Defs.{Task}
use devops_platform.Worker.Dispatch.Defs.{
  System, Phase, idle, holding, pausing, stopped, Move, submit, send, rendezvous, finish, receive,
  check, requeue, cancel, exit, extract, sent, checked, start, step, run,
}

-- Past the end nothing is extracted, and what is extracted makes the list one shorter.
length-extract :
    (xs : List Task) (i : ℕ)
    → length xs ≡ elim (extract xs i) [ none ↦ length xs | some (t, rest) ↦ suc (length rest) ]
unfolding extract
length-extract [] i = refl
length-extract (x ∷ xs) zero = refl
length-extract (x ∷ xs) (suc i) = ground (arith, length-extract xs i)

pub record HasSlots (s : System) : Type 0 where
  pub counted : s.current_running ≡ length s.active
  pub limited : s.current_running ≤ s.max_concurrent
  pub queued : length s.pending ≤ s.queue_size

length-snoc : (xs : List Task) (t : Task) → length (xs ++ t ∷ []) ≡ suc (length xs)
length-snoc xs t = omega (arith, length-append xs (t ∷ []))

sent-HasSlots : (s : System) (o : Option (Task × List Task)) → HasSlots s → HasSlots (sent s o)
unfolding sent
sent-HasSlots s none h = h
sent-HasSlots s (some (t, rest)) h = ground (arith, length-snoc s.pending t)

checked-HasSlots : (s : System) (p : Phase) → HasSlots s → HasSlots (checked s p)
unfolding checked
checked-HasSlots s (holding t) h = ground (arith, length-snoc s.active t)
checked-HasSlots s idle h = h
checked-HasSlots s (pausing t) h = h
checked-HasSlots s stopped h = h

pub step-HasSlots : (m : Move) (s : System) → HasSlots s → HasSlots (step m s)
unfolding step
step-HasSlots (submit fresh t) s h = ground arith
step-HasSlots (send i) s h = sent-HasSlots s (extract s.senders i) h
step-HasSlots receive s h = ground arith
step-HasSlots (rendezvous i) s h = ground arith
step-HasSlots check s h = checked-HasSlots s s.phase h
step-HasSlots requeue s h = ground arith
step-HasSlots (finish i) s h = ground (arith, length-extract s.active i)
step-HasSlots cancel s h = ground arith
step-HasSlots exit s h = ground arith

pub run-HasSlots : (ms : List Move) (s : System) → HasSlots s → HasSlots (run ms s)
unfolding run
run-HasSlots [] s h = h
run-HasSlots (m ∷ ms) s h = run-HasSlots ms (step m s) (step-HasSlots m s h)

pub max_concurrent-step : (m : Move) (s : System) → (step m s).max_concurrent ≡ s.max_concurrent
unfolding step
max_concurrent-step (submit fresh t) s = ground arith
max_concurrent-step _ s = ground arith

pub max_concurrent-run :
    (ms : List Move) (s : System) → (run ms s).max_concurrent ≡ s.max_concurrent
unfolding run
max_concurrent-run [] s = refl
max_concurrent-run (m ∷ ms) s = max_concurrent-run ms (step m s) ∙ max_concurrent-step m s

-- In every interleaving from the start the counter is the number of tasks in runTask, and never more
-- than the limit of them run at once.
pub slots_exact :
    (queue_size max_concurrent : ℕ) (ms : List Move)
    → let s = run ms (start queue_size max_concurrent) in
      (s.current_running ≡ length s.active) × (length s.active ≤ max_concurrent)
unfolding start
slots_exact q n ms =
    let h = run-HasSlots ms (start q n) (ground arith) in
    omega (arith, h.counted, h.limited, max_concurrent-run ms (start q n))
