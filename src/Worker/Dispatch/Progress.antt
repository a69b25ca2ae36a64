-- ===== src/Worker/Dispatch/Progress.antt =====
-- How the queue of internal/adapters/worker/worker_service.go empties: moves of the goroutines that are there
-- already, without a further AddTask.
use devops_platform.Base.{
  ℕ, zero, suc, ◌+◌, ◌*◌, ◌<◌, ◌≡◌, refl, ◌≢◌, Bool, List, [], ◌∷◌, length, length-append, All,
  arith,
}
use devops_platform.Task.Defs.{Task}
use devops_platform.Worker.Dispatch.Defs.{
  System, Phase, idle, holding, pausing, stopped, Move, submit, rendezvous, finish, receive, check,
  requeue, cancel, exit, extract, received, met, checked, requeued, ended, start, step, run,
}
use devops_platform.Worker.Dispatch.Slots.{
  HasSlots, step-HasSlots, run-HasSlots, max_concurrent-step, max_concurrent-run,
}
use devops_platform.Worker.Dispatch.Conservation.{
  count_if, total, added, added_all, total-run, tasks_conserved,
}

-- A move of the dispatcher, of a sender or of a task that runs: none that AddTask or a cancelled
-- context makes.
abbrev pub IsInner : Move → Type 0
IsInner (submit fresh t) = ⊥
IsInner cancel = ⊥
IsInner exit = ⊥
IsInner m = Unit

-- A running task ends first; then the dispatcher goes on, with a task of the queue or of a sender.
abbrev next_by : List Task → Phase → List Task → Move
next_by (t ∷ ts) ph q = finish 0
next_by [] (holding t) q = check
next_by [] (pausing t) q = requeue
next_by [] ph (t ∷ q) = receive
next_by [] ph [] = rendezvous 0

abbrev next : System → Move
next s = next_by s.active s.phase s.pending

pub next-IsInner : (s : System) → IsInner (next s)
next-IsInner s = by_parts s.active s.phase s.pending
  where
    by_parts : (a : List Task) (ph : Phase) (q : List Task) → IsInner (next_by a ph q)
    by_parts (t ∷ ts) ph q = tt
    by_parts [] (holding t) q = tt
    by_parts [] (pausing t) q = tt
    by_parts [] idle (t ∷ q) = tt
    by_parts [] stopped (t ∷ q) = tt
    by_parts [] idle [] = tt
    by_parts [] stopped [] = tt

-- How many moves a task is from its end.
abbrev left : Phase → ℕ
left (holding t) = 2
left (pausing t) = 4
left _ = 0

abbrev pub work : System → ℕ
work s = length s.active + left s.phase + 3 * length s.pending + 3 * length s.senders

abbrev pub moves_left : ℕ → System → List Move
moves_left zero s = []
moves_left (suc n) s = next s ∷ moves_left n (step (next s) s)

record IsLive (s : System) : Type 0 where
  slots : HasSlots s
  room : 0 < s.max_concurrent
  there : s.phase ≢ stopped

next-work :
    (s : System) (a : List Task) (ph : Phase) (q r : List Task) (n : ℕ)
    → IsLive s
    → s.active ≡ a
    → s.phase ≡ ph
    → s.pending ≡ q
    → s.senders ≡ r
    → work s ≡ suc n
    → (work (step (next_by a ph q) s) ≡ n) × ((step (next_by a ph q) s).phase ≢ stopped)
unfolding step extract received met checked requeued ended
next-work s (t ∷ ts) ph q r n l e f g h w = ground (arith, l.there)
next-work s [] (holding t) q r n l e f g h w =
    ground (arith, l.slots.counted, l.room, length-append {0} s.active (t ∷ []))
next-work s [] (pausing t) q r n l e f g h w = ground (arith, length-append {0} s.senders (t ∷ []))
next-work s [] stopped q r n l e f g h w = absurd (l.there f)
next-work s [] idle (t ∷ q) r n l e f g h w = ground arith
next-work s [] idle [] (t ∷ r) n l e f g h w = ground arith
next-work s [] idle [] [] n l e f g h w = ground arith

next-IsLive : (s : System) (n : ℕ) → IsLive s → work s ≡ suc n → IsLive (step (next s) s)
next-IsLive s n l w = record {
  slots = step-HasSlots (next s) s l.slots;
  room = omega (arith, l.room, max_concurrent-step (next s) s);
  there = (next-work s s.active s.phase s.pending s.senders n l refl refl refl refl w).1;
}

-- Nothing waits, nothing runs, and the dispatcher is at its `select`.
pub record IsDrained (s : System) : Type 0 where
  pub queued : s.pending ≡ []
  pub unsent : s.senders ≡ []
  pub running : s.active ≡ []
  pub at_select : s.phase ≡ idle

length-eq-zero : (ts : List Task) → length ts ≡ 0 → ts ≡ []
length-eq-zero [] h = refl
length-eq-zero (t ∷ ts) h = ground arith

left-eq-zero : (ph : Phase) → left ph ≡ 0 → ph ≢ stopped → ph ≡ idle
left-eq-zero idle h there = refl
left-eq-zero (holding t) h there = ground arith
left-eq-zero (pausing t) h there = ground arith
left-eq-zero stopped h there = absurd (there refl)

done-IsDrained : (s : System) → IsLive s → work s ≡ 0 → IsDrained s
done-IsDrained s l w = record {
  queued = length-eq-zero s.pending (omega arith);
  unsent = length-eq-zero s.senders (omega arith);
  running = length-eq-zero s.active (omega arith);
  at_select = left-eq-zero s.phase (omega arith) l.there;
}

moves_left-IsDrained :
    (n : ℕ) (s : System) → IsLive s → work s ≡ n → IsDrained (run (moves_left n s) s)
unfolding run
moves_left-IsDrained zero s l w = done-IsDrained s l w
moves_left-IsDrained (suc n) s l w =
    moves_left-IsDrained n (step (next s) s) (next-IsLive s n l w)
      (next-work s s.active s.phase s.pending s.senders n l refl refl refl refl w).0

moves_left-IsInner : (n : ℕ) (s : System) → All IsInner (moves_left n s)
moves_left-IsInner zero s = tt
moves_left-IsInner (suc n) s = (next-IsInner s, moves_left-IsInner n (step (next s) s))

added-inner : (p : Task → Bool) (m : Move) → IsInner m → added p m ≡ 0
added-inner p (submit fresh t) h = absurd h
added-inner p m h = refl

added_all-inner : (p : Task → Bool) (ms : List Move) → All IsInner ms → added_all p ms ≡ 0
added_all-inner p [] h = refl
added_all-inner p (m ∷ ms) h = omega (arith, added-inner p m h.0, added_all-inner p ms h.1)

-- After any moves from the start, where at least one task may run and the dispatcher has not returned,
-- there are moves without a further AddTask and without an end of the context after which nothing waits or
-- runs, and exactly the tasks that AddTask admitted, with their multiplicity, are finished.
pub every_task_finishes :
    (queue_size max_concurrent : ℕ) (ms : List Move)
    → 0 < max_concurrent
    → (run ms (start queue_size max_concurrent)).phase ≢ stopped
    → let s = run ms (start queue_size max_concurrent) in
      (ns : List Move) × All IsInner ns
      × IsDrained (run ns s)
      × ((p : Task → Bool) → count_if p (run ns s).finished ≡ added_all p ms)
unfolding start count_if
every_task_finishes q n ms room there = (
  ns,
  moves_left-IsInner (work s) s,
  drained,
  λ p. omega (
    arith,
    tasks_conserved p q n ms,
    total-run p ns s,
    added_all-inner p ns (moves_left-IsInner (work s) s),
    finished_only p,
  ),
)
  where
    s : System
    s = run ms (start q n)

    ns : List Move
    ns = moves_left (work s) s

    live : IsLive s
    live = record {
      slots = run-HasSlots ms (start q n) (ground arith);
      room = omega (arith, room, max_concurrent-run ms (start q n));
      there = there;
    }

    drained : IsDrained (run ns s)
    drained = moves_left-IsDrained (work s) s live refl

    finished_only : (p : Task → Bool) → total p (run ns s) ≡ count_if p (run ns s).finished
    finished_only p =
        rw (drained.queued, drained.unsent, drained.running, drained.at_select) (omega arith)
