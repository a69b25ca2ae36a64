-- ===== src/Worker/Dispatch/Order.antt =====
-- In which order the dispatcher of internal/adapters/worker/worker_service.go starts the tasks of its queue.
use mathlib.Core.List.{append-nil, append_assoc}
use devops_platform.Base.{
  ℕ, ◌≡◌, refl, ◌∙◌, sym, ap, List, [], ◌∷◌, ◌++◌, length, Option, none, some, ltb, leb, All,
  Bool-cases, inl, inr, Result, ok, err, panic, if◌then◌else◌,
}
use devops_platform.Task.Defs.{Task}
use devops_platform.Worker.Dispatch.Defs.{
  System, Phase, idle, holding, pausing, Move, submit, send, rendezvous, finish, receive, check,
  requeue, cancel, exit, extract, admit, start, step, run, submitted, sent, received, met, checked,
  ended, exited,
}

-- The dispatcher does not queue a task again.
abbrev pub IsForward : Move → Type 0
IsForward requeue = ⊥
IsForward m = Unit

-- The task that the dispatcher has, in front of those in the queue.
abbrev in_hand : Phase → List Task
in_hand (holding t) = t ∷ []
in_hand (pausing t) = t ∷ []
in_hand ph = []

abbrev pub waiting : System → List Task
waiting s = in_hand s.phase ++ s.pending

-- What enters the queue by a move, or is received from a blocked sender.
abbrev entered_by : System → Option (Task × List Task) → List Task
entered_by s none = []
entered_by s (some (t, rest)) = if ltb (length s.pending) s.queue_size then t ∷ [] else []

abbrev met_by : Phase → List Task → Option (Task × List Task) → List Task
met_by idle [] (some (t, rest)) = t ∷ []
met_by ph q o = []

abbrev pub entered : Move → System → List Task
entered (send i) s = entered_by s (extract s.senders i)
entered (rendezvous i) s = met_by s.phase s.pending (extract s.senders i)
entered m s = []

-- What a move starts.
abbrev begun_by : System → Phase → List Task
begun_by s (holding t) = if leb s.max_concurrent s.current_running then [] else t ∷ []
begun_by s ph = []

abbrev pub begun : Move → System → List Task
begun check s = begun_by s s.phase
begun m s = []

-- In the order of the moves.
abbrev pub entered_all : List Move → System → List Task
entered_all [] s = []
entered_all (m ∷ ms) s = entered m s ++ entered_all ms (step m s)

abbrev pub begun_all : List Move → System → List Task
begun_all [] s = []
begun_all (m ∷ ms) s = begun m s ++ begun_all ms (step m s)

waiting-sent :
    (s : System) (o : Option (Task × List Task)) → waiting (sent s o) ≡ waiting s ++ entered_by s o
unfolding sent
waiting-sent s none = sym (append-nil (waiting s))
waiting-sent s (some (t, rest)) = elim (Bool-cases (ltb (length s.pending) s.queue_size)) [
  | inl b ↦ rw b (sym (append_assoc (in_hand s.phase) s.pending (t ∷ [])))
  | inr b ↦ rw b (sym (append-nil (waiting s)))
]

waiting-met :
    (s : System) (ph : Phase) (q : List Task) (o : Option (Task × List Task))
    → s.phase ≡ ph
    → s.pending ≡ q
    → waiting (met s ph q o) ≡ waiting s ++ met_by ph q o
unfolding met
waiting-met s idle [] (some (t, rest)) e f = rw (e, f) refl
waiting-met s ph q o e f = sym (append-nil (waiting s))

waiting-received :
    (s : System) (ph : Phase) (q : List Task)
    → s.phase ≡ ph
    → s.pending ≡ q
    → waiting (received s ph q) ≡ waiting s
unfolding received
waiting-received s idle (t ∷ rest) e f = rw (e, f) refl
waiting-received s ph q e f = refl

waiting-checked :
    (s : System) (ph : Phase) → s.phase ≡ ph → begun_by s ph ++ waiting (checked s ph) ≡ waiting s
unfolding checked
waiting-checked s (holding t) e = elim (Bool-cases (leb s.max_concurrent s.current_running)) [
  | inl b ↦ rw b (rw e refl)
  | inr b ↦ rw b (rw e refl)
]
waiting-checked s ph e = refl

waiting-submitted : (s : System) (r : Result Task) → waiting (submitted s r) ≡ waiting s
unfolding submitted
waiting-submitted s (ok t) = refl
waiting-submitted s (err e) = refl
waiting-submitted s panic = refl

waiting-ended : (s : System) (o : Option (Task × List Task)) → waiting (ended s o) ≡ waiting s
unfolding ended
waiting-ended s none = refl
waiting-ended s (some (t, rest)) = refl

waiting-exited : (s : System) (ph : Phase) → s.phase ≡ ph → waiting (exited s ph) ≡ waiting s
unfolding exited
waiting-exited s idle e = elim (Bool-cases s.is_cancelled) [
  | inl b ↦ rw b (rw e refl)
  | inr b ↦ rw b refl
]
waiting-exited s ph e = refl

stays : {xs ys : List Task} → xs ≡ ys → xs ≡ ys ++ []
stays {ys = ys} e = e ∙ sym (append-nil ys)

waiting-step :
    (m : Move) (s : System)
    → IsForward m
    → begun m s ++ waiting (step m s) ≡ waiting s ++ entered m s
unfolding step
waiting-step (submit fresh t) s h = stays (waiting-submitted s (admit fresh t))
waiting-step (send i) s h = waiting-sent s (extract s.senders i)
waiting-step receive s h = stays (waiting-received s s.phase s.pending refl refl)
waiting-step (rendezvous i) s h = waiting-met s s.phase s.pending (extract s.senders i) refl refl
waiting-step check s h = stays (waiting-checked s s.phase refl)
waiting-step requeue s h = absurd h
waiting-step (finish i) s h = stays (waiting-ended s (extract s.active i))
waiting-step cancel s h = stays refl
waiting-step exit s h = stays (waiting-exited s s.phase refl)

waiting-run :
    (ms : List Move) (s : System)
    → All IsForward ms
    → begun_all ms s ++ waiting (run ms s) ≡ waiting s ++ entered_all ms s
unfolding run
waiting-run [] s h = sym (append-nil (waiting s))
waiting-run (m ∷ ms) s h =
    append_assoc (begun m s) (begun_all ms (step m s)) (waiting (run ms (step m s)))
    ∙ (ap (λ l. begun m s ++ l) (waiting-run ms (step m s) h.1)
        ∙ (sym (append_assoc (begun m s) (waiting (step m s)) (entered_all ms (step m s)))
            ∙ (ap (λ l. l ++ entered_all ms (step m s)) (waiting-step m s h.0)
                ∙ append_assoc (waiting s) (entered m s) (entered_all ms (step m s)))))

-- In every interleaving from the start in which the dispatcher queues no task again, the tasks that it
-- starts, then the one that it has, then those in its queue, are the tasks that entered the queue, in
-- that order: first in, first out.
pub starts_in_order :
    (queue_size max_concurrent : ℕ) (ms : List Move)
    → All IsForward ms
    → let s = start queue_size max_concurrent in
      begun_all ms s ++ waiting (run ms s) ≡ entered_all ms s
unfolding start
starts_in_order q n ms h = waiting-run ms (start q n) h
