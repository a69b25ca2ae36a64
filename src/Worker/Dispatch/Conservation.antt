-- ===== src/Worker/Dispatch/Conservation.antt =====
-- Where the tasks are that internal/adapters/worker/worker_service.go's AddTask admitted.
use devops_platform.Base.{
  ℕ, zero, suc, ◌+◌, ◌≡◌, refl, ◌∙◌, Bool, List, [], ◌∷◌, ◌++◌, Option, none, some, Result, ok, err,
  panic, arith, if◌then◌else◌,
}
use devops_platform.Task.Defs.{Task}
use devops_platform.Worker.Dispatch.Defs.{
  System, Phase, idle, holding, pausing, stopped, Move, submit, send, rendezvous, finish, receive,
  check, requeue, cancel, exit, extract, admit, start, step, run, submitted, sent, received, met,
  checked, requeued, ended, exited,
}

module _ (p : Task → Bool) where
  abbrev pub one_if : Task → ℕ
  one_if t = if p t then 1 else 0

  -- How many tasks of a list pass the test.
  unfoldable pub count_if : List Task → ℕ
  count_if [] = 0
  count_if (t ∷ ts) = one_if t + count_if ts

  count_if-append : (xs ys : List Task) → count_if (xs ++ ys) ≡ count_if xs + count_if ys
  unfolding count_if
  count_if-append [] ys = omega arith
  count_if-append (x ∷ xs) ys = omega (arith, count_if-append xs ys)

  pub count_if-snoc : (xs : List Task) (t : Task) → count_if (xs ++ t ∷ []) ≡ count_if xs + one_if t
  unfolding count_if
  count_if-snoc xs t = omega (arith, count_if-append xs (t ∷ []))

  pub count_if-extract :
      (xs : List Task) (i : ℕ)
      → count_if xs
        ≡ elim (extract xs i) [ none ↦ count_if xs | some (t, rest) ↦ one_if t + count_if rest ]
  unfolding extract count_if
  count_if-extract [] i = refl
  count_if-extract (x ∷ xs) zero = refl
  count_if-extract (x ∷ xs) (suc i) = ground (arith, count_if-extract xs i)

  abbrev pub held : Phase → ℕ
  held (holding t) = one_if t
  held (pausing t) = one_if t
  held idle = 0
  held stopped = 0

  -- How many tasks anywhere in the system pass the test.
  abbrev pub total : System → ℕ
  total s =
      count_if s.pending
      + count_if s.senders
      + held s.phase
      + count_if s.active
      + count_if s.finished

  abbrev pub admitted : Result Task → ℕ
  admitted (ok t) = one_if t
  admitted (err e) = 0
  admitted panic = 0

  -- What a move adds: only AddTask does.
  abbrev pub added : Move → ℕ
  added (submit fresh t) = admitted (admit fresh t)
  added _ = 0

  total-submitted : (s : System) (r : Result Task) → total (submitted s r) ≡ admitted r + total s
  unfolding submitted
  total-submitted s (ok t) = ground (arith, count_if-snoc s.senders t)
  total-submitted s (err e) = omega arith
  total-submitted s panic = omega arith

  total-sent :
      (s : System) (o : Option (Task × List Task))
      → count_if s.senders
        ≡ elim o [ none ↦ count_if s.senders | some (t, rest) ↦ one_if t + count_if rest ]
      → total (sent s o) ≡ total s
  unfolding sent
  total-sent s none h = refl
  total-sent s (some (t, rest)) h = ground (arith, count_if-snoc s.pending t)

  total-received :
      (s : System) (ph : Phase) (q : List Task)
      → s.phase ≡ ph
      → s.pending ≡ q
      → total (received s ph q) ≡ total s
  unfolding received count_if
  total-received s idle (t ∷ rest) e f = ground arith
  total-received s _ _ e f = refl

  total-met :
      (s : System) (ph : Phase) (q : List Task) (o : Option (Task × List Task))
      → s.phase ≡ ph
      → count_if s.senders
        ≡ elim o [ none ↦ count_if s.senders | some (t, rest) ↦ one_if t + count_if rest ]
      → total (met s ph q o) ≡ total s
  unfolding met
  total-met s idle [] (some (t, rest)) e h = ground arith
  total-met s _ _ _ e h = refl

  total-checked : (s : System) (ph : Phase) → s.phase ≡ ph → total (checked s ph) ≡ total s
  unfolding checked
  total-checked s (holding t) e = ground (arith, count_if-snoc s.active t)
  total-checked s _ e = refl

  total-requeued : (s : System) (ph : Phase) → s.phase ≡ ph → total (requeued s ph) ≡ total s
  unfolding requeued
  total-requeued s (pausing t) e = ground (arith, count_if-snoc s.senders t)
  total-requeued s _ e = refl

  total-ended :
      (s : System) (o : Option (Task × List Task))
      → count_if s.active
        ≡ elim o [ none ↦ count_if s.active | some (t, rest) ↦ one_if t + count_if rest ]
      → total (ended s o) ≡ total s
  unfolding ended
  total-ended s none h = refl
  total-ended s (some (t, rest)) h = ground (arith, count_if-snoc s.finished t)

  total-exited : (s : System) (ph : Phase) → s.phase ≡ ph → total (exited s ph) ≡ total s
  unfolding exited
  total-exited s idle e = ground arith
  total-exited s _ e = refl

  total-step : (m : Move) (s : System) → total (step m s) ≡ added m + total s
  unfolding step
  total-step (submit fresh t) s = total-submitted s (admit fresh t)
  total-step (send i) s =
      omega (arith, total-sent s (extract s.senders i) (count_if-extract s.senders i))
  total-step receive s = omega (arith, total-received s s.phase s.pending refl refl)
  total-step (rendezvous i) s = omega (
    arith,
    total-met s s.phase s.pending (extract s.senders i) refl (count_if-extract s.senders i),
  )
  total-step check s = omega (arith, total-checked s s.phase refl)
  total-step requeue s = omega (arith, total-requeued s s.phase refl)
  total-step (finish i) s =
      omega (arith, total-ended s (extract s.active i) (count_if-extract s.active i))
  total-step cancel s = omega arith
  total-step exit s = omega (arith, total-exited s s.phase refl)

  -- How many admitted tasks of a list of moves pass the test.
  abbrev pub added_all : List Move → ℕ
  added_all [] = 0
  added_all (m ∷ ms) = added m + added_all ms

  pub total-run : (ms : List Move) (s : System) → total (run ms s) ≡ added_all ms + total s
  unfolding run
  total-run [] s = omega arith
  total-run (m ∷ ms) s = omega (arith, total-run ms (step m s), total-step m s)

  -- In every interleaving the tasks that AddTask admitted are, with their multiplicity, those that
  -- wait to be sent, wait in the queue, are held by the dispatcher, run, or are finished.
  pub tasks_conserved :
      (queue_size max_concurrent : ℕ) (ms : List Move)
      → total (run ms (start queue_size max_concurrent)) ≡ added_all ms
  unfolding start count_if
  tasks_conserved q n ms = omega (arith, total-run ms (start q n))

  -- How many tasks were ever started, that is, run or are finished.
  abbrev pub begun : System → ℕ
  begun s = count_if s.active + count_if s.finished

  begun-ended :
      (s : System) (o : Option (Task × List Task))
      → count_if s.active
        ≡ elim o [ none ↦ count_if s.active | some (t, rest) ↦ one_if t + count_if rest ]
      → s.phase ≡ stopped
      → ((ended s o).phase ≡ stopped) × (begun (ended s o) ≡ begun s)
  unfolding ended
  begun-ended s none h e = (e, refl)
  begun-ended s (some (t, rest)) h e = (e, omega (arith, count_if-snoc s.finished t))

  begun-step-stopped :
      (m : Move) (s : System)
      → s.phase ≡ stopped
      → ((step m s).phase ≡ stopped) × (begun (step m s) ≡ begun s)
  unfolding step
  begun-step-stopped (submit fresh t) s h = ground arith
  begun-step-stopped (finish i) s h =
      begun-ended s (extract s.active i) (count_if-extract s.active i) h
  begun-step-stopped _ s h = ground arith

  -- After the dispatcher returned it starts no task, in any interleaving.
  pub begun-run-stopped :
      (ms : List Move) (s : System)
      → s.phase ≡ stopped
      → ((run ms s).phase ≡ stopped) × (begun (run ms s) ≡ begun s)
  unfolding run
  begun-run-stopped [] s h = (h, refl)
  begun-run-stopped (m ∷ ms) s h =
      let (p', e) = begun-step-stopped m s h in
      let (q, f) = begun-run-stopped ms (step m s) p' in (q, f ∙ e)
