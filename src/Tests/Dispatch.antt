-- ===== src/Tests/Dispatch.antt =====
-- The queue of the worker service and the output channel on short runs.
use devops_platform.Base.{◌≡◌, refl, ◌≤◌, Bool, true, [], ◌∷◌, ◌++◌, List, length, All, arith}
use devops_platform.Task.State.{pending}
use devops_platform.Task.Defs.{Task}
use devops_platform.Worker.Dispatch.Defs.{
  System, Move, submit, send, receive, check, finish, exit, cancel, start, run, step, extract,
  submitted, admit, sent, received, checked,
}
use devops_platform.Worker.Dispatch.Slots.{slots_exact}
use devops_platform.Worker.Dispatch.Conservation.{total, count_if, added_all, tasks_conserved}
use devops_platform.Worker.Dispatch.Progress.{IsInner, IsDrained, every_task_finishes}
use devops_platform.Worker.Dispatch.Abstract.{SpecStep, nothing}
use devops_platform.Worker.Dispatch.Simulation.{places, dispatcher_refines}
use devops_platform.Worker.Dispatch.Order.{begun_all, entered_all, waiting, starts_in_order}
use devops_platform.Worker.Output.{
  Channel, opened, ◌⇒*◌, here, next, call, cancel as end_context, close_starter, eof, close_reader,
  finished, done, close,
}
use devops_platform.Worker.Output.Closing.{both_ends_panic}
use devops_platform.Tests.Fixtures.{task_in}

abbrev moves : List Move
moves =
    submit 5 (task_in pending)
    ∷ send 0
    ∷ receive
    ∷ check
    ∷ submit 6 (task_in pending)
    ∷ send 0
    ∷ receive
    ∷ check
    ∷ []

slots_exact_example :
    let s = run moves (start 2 1) in (s.current_running ≡ length s.active) × (length s.active ≤ 1)
slots_exact_example = slots_exact 2 1 moves

-- After `moves` the task that runs ends.
dispatcher_refines_example :
    (places (start 2 1) ≡ nothing)
    × SpecStep 1 (places (run moves (start 2 1))) (places (step (finish 0) (run moves (start 2 1))))
dispatcher_refines_example = dispatcher_refines 2 1 moves (finish 0)

tasks_conserved_example : total (λ t. true) (run moves (start 2 1)) ≡ added_all (λ t. true) moves
tasks_conserved_example = tasks_conserved (λ t. true) 2 1 moves

-- After `moves` one task runs and the dispatcher waits with the other one.
every_task_finishes_example :
    let s = run moves (start 2 1) in
    (ns : List Move) × All IsInner ns
    × IsDrained (run ns s)
    × ((p : Task → Bool) → count_if p (run ns s).finished ≡ added_all p moves)
unfolding run step extract start submitted admit sent received checked
every_task_finishes_example = every_task_finishes 2 1 moves (omega arith) λ e. ground arith

starts_in_order_example :
    begun_all moves (start 2 1) ++ waiting (run moves (start 2 1)) ≡ entered_all moves (start 2 1)
starts_in_order_example =
    starts_in_order 2 1 moves (tt, (tt, (tt, (tt, (tt, (tt, (tt, (tt, tt))))))))

abbrev stopped_system : System
stopped_system = run (cancel ∷ exit ∷ []) (start 2 1)

-- The command starts, its stream ends, and both goroutines close the channel.
abbrev twice : Channel
twice = record opened {
  starter = finished;
  reader = done;
  is_closed = true;
  is_cancelled = true;
  has_panicked = true;
}

abbrev closing_twice : opened ⇒* twice
unfolding close
closing_twice =
    next
      (next (next (next (next here refl (call refl)) refl (end_context refl)) refl (eof refl)) refl
        (close_starter refl))
      refl (close_reader refl)

both_ends_panic_example : twice.has_panicked ≡ true
both_ends_panic_example = both_ends_panic closing_twice refl refl
