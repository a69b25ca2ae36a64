-- ===== src/Worker/Dispatch/Simulation.antt =====
-- The moves of the goroutines of internal/adapters/worker/worker_service.go, lines 83 to 154, as steps of the
-- specification.
use devops_platform.Base.{
  ℕ, ◌+◌, ◌≡◌, refl, Bool, true, List, [], ◌∷◌, length, leb, ltb, Option, none, some, Result, ok,
  err, panic, Bool-cases, inl, inr, arith, subst,
}
use devops_platform.Task.Defs.{Task}
use devops_platform.Worker.Dispatch.Defs.{
  System, Phase, idle, holding, pausing, stopped, Move, submit, send, rendezvous, finish, receive,
  check, requeue, cancel, exit, extract, start, step, run, submitted, sent, received, met, checked,
  requeued, ended, exited,
}
use devops_platform.Worker.Dispatch.Defs as Defs
use devops_platform.Worker.Dispatch.Slots.{HasSlots, run-HasSlots, max_concurrent-run}
use devops_platform.Worker.Dispatch.Conservation.{
  count_if, one_if, held, count_if-snoc, count_if-extract,
}
use devops_platform.Worker.Dispatch.Abstract.{Places, SpecStep, arrive, begin, end, stay, nothing}

-- What the specification sees of the system.
unfoldable pub places : System → Places
places s = record {
  waiting = λ p. count_if p s.pending + count_if p s.senders + held p s.phase;
  running = λ p. count_if p s.active;
  done = λ p. count_if p s.finished;
}

abbrev Simulates : System → System → Type 0
Simulates s s' = SpecStep s.max_concurrent (places s) (places s')

count_if-all : (ts : List Task) → count_if (λ t. true) ts ≡ length ts
unfolding count_if
count_if-all [] = refl
count_if-all (t ∷ ts) = omega (arith, count_if-all ts)

stays : (s : System) → Simulates s s
unfolding places
stays s = stay (λ p. refl) (λ p. refl) (λ p. refl)

submitted-Simulates : (s : System) (r : Result Task) → Simulates s (submitted s r)
unfolding submitted places
submitted-Simulates s (ok t) =
    arrive t (λ p. omega (arith, count_if-snoc p s.senders t)) (λ p. refl) (λ p. refl)
submitted-Simulates s (err e) = stays s
submitted-Simulates s panic = stays s

-- What was extracted, put back, is the list.
abbrev Splits : List Task → Option (Task × List Task) → Type 0
Splits xs o =
    (p : Task → Bool)
    → count_if p xs
      ≡ elim o [ none ↦ count_if p xs | some (t, rest) ↦ one_if p t + count_if p rest ]

sent-Simulates :
    (s : System) (o : Option (Task × List Task)) → Splits s.senders o → Simulates s (sent s o)
unfolding sent places
sent-Simulates s none h = stays s
sent-Simulates s (some (t, rest)) h = elim (Bool-cases (ltb (length s.pending) s.queue_size)) [
  | inl b ↦
      rw b (stay (λ p. omega (arith, h p, count_if-snoc p s.pending t)) (λ p. refl) (λ p. refl))
  | inr b ↦ rw b (stays s)
]

received-Simulates :
    (s : System) (ph : Phase) (q : List Task)
    → s.phase ≡ ph
    → s.pending ≡ q
    → Simulates s (received s ph q)
unfolding received places count_if
received-Simulates s idle (t ∷ rest) e f = stay (λ p. ground arith) (λ p. refl) (λ p. refl)
received-Simulates s ph q e f = stays s

met-Simulates :
    (s : System) (ph : Phase) (q : List Task) (o : Option (Task × List Task))
    → s.phase ≡ ph
    → Splits s.senders o
    → Simulates s (met s ph q o)
unfolding met places
met-Simulates s idle [] (some (t, rest)) e h =
    stay (λ p. ground (arith, h p)) (λ p. refl) (λ p. refl)
met-Simulates s ph q o e h = stays s

checked-Simulates :
    (s : System) (ph : Phase) → HasSlots s → s.phase ≡ ph → Simulates s (checked s ph)
unfolding checked places
checked-Simulates s (holding t) h e = elim (Bool-cases (leb s.max_concurrent s.current_running)) [
  | inl b ↦ rw b (stay (λ p. ground arith) (λ p. refl) (λ p. refl))
  | inr b ↦ rw b (
      begin t (ground (arith, h.counted, count_if-all s.active)) (λ p. ground arith)
        (λ p. count_if-snoc p s.active t) (λ p. refl))
]
checked-Simulates s ph h e = stays s

requeued-Simulates : (s : System) (ph : Phase) → s.phase ≡ ph → Simulates s (requeued s ph)
unfolding requeued places
requeued-Simulates s (pausing t) e =
    stay (λ p. ground (arith, count_if-snoc p s.senders t)) (λ p. refl) (λ p. refl)
requeued-Simulates s ph e = stays s

ended-Simulates :
    (s : System) (o : Option (Task × List Task)) → Splits s.active o → Simulates s (ended s o)
unfolding ended places
ended-Simulates s none h = stays s
ended-Simulates s (some (t, rest)) h =
    end t (λ p. refl) (λ p. omega (arith, h p)) (λ p. count_if-snoc p s.finished t)

exited-Simulates : (s : System) (ph : Phase) → s.phase ≡ ph → Simulates s (exited s ph)
unfolding exited places
exited-Simulates s idle e = elim (Bool-cases s.is_cancelled) [
  | inl b ↦ rw b (stay (λ p. ground arith) (λ p. refl) (λ p. refl))
  | inr b ↦ rw b (stays s)
]
exited-Simulates s ph e = stays s

step-Simulates : (m : Move) (s : System) → HasSlots s → Simulates s (step m s)
unfolding step places
step-Simulates (submit fresh t) s h = submitted-Simulates s (Defs.admit fresh t)
step-Simulates (send i) s h =
    sent-Simulates s (extract s.senders i) (λ p. count_if-extract p s.senders i)
step-Simulates receive s h = received-Simulates s s.phase s.pending refl refl
step-Simulates (rendezvous i) s h =
    met-Simulates s s.phase s.pending (extract s.senders i) refl
      (λ p. count_if-extract p s.senders i)
step-Simulates check s h = checked-Simulates s s.phase h refl
step-Simulates requeue s h = requeued-Simulates s s.phase refl
step-Simulates (finish i) s h =
    ended-Simulates s (extract s.active i) (λ p. count_if-extract p s.active i)
step-Simulates cancel s h = stays s
step-Simulates exit s h = exited-Simulates s s.phase refl

-- At the start no task waits, runs or is finished. In every interleaving from there, each move of AddTask, the
-- dispatcher, runTask and the context is a step of the specification with the limit of the service: a task is
-- admitted, or a waiting task begins while fewer than the limit run, or a running task ends, or every task stays
-- where it is.
pub dispatcher_refines :
    (queue_size max_concurrent : ℕ) (ms : List Move) (m : Move)
    → let s = run ms (start queue_size max_concurrent) in
      (places (start queue_size max_concurrent) ≡ nothing)
      × SpecStep max_concurrent (places s) (places (step m s))
unfolding start places count_if
dispatcher_refines q n ms m =
    let s = run ms (start q n) in
    (
      refl,
      subst (λ k. SpecStep k (places s) (places (step m s))) (max_concurrent-run ms (start q n))
          (step-Simulates m s (run-HasSlots ms (start q n) (ground arith))),
    )
