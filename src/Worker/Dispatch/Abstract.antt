-- ===== src/Worker/Dispatch/Abstract.antt =====
-- What the queue and the dispatcher of internal/adapters/worker/worker_service.go promise, with no queue, order or
-- dispatcher: tasks wait, run at most so many at once, and end.
use devops_platform.Base.{ℕ, ◌+◌, ◌<◌, ◌≡◌, Bool, true}
use devops_platform.Task.Defs.{Task}
use devops_platform.Worker.Dispatch.Conservation.{one_if}

-- How many tasks that pass a test are in a place.
abbrev pub Bag : Type 0
Bag = (Task → Bool) → ℕ

-- The second bag is the first one with the task, or the same.
abbrev pub Gains : Task → Bag → Bag → Type 0
Gains t a b = (p : Task → Bool) → b p ≡ a p + one_if p t

abbrev pub Same : Bag → Bag → Type 0
Same a b = (p : Task → Bool) → b p ≡ a p

pub record Places : Type 0 where
  pub waiting : Bag
  pub running : Bag
  pub done : Bag

abbrev pub busy : Places → ℕ
busy s = s.running λ t. true

-- A task arrives, begins where there is room, or ends; or nothing happens.
pub data SpecStep (max : ℕ) (s s' : Places) : Type 0 where
  arrive :
      (t : Task)
      → Gains t s.waiting s'.waiting
      → Same s.running s'.running
      → Same s.done s'.done
      → SpecStep max s s'
  begin :
      (t : Task)
      → busy s < max
      → Gains t s'.waiting s.waiting
      → Gains t s.running s'.running
      → Same s.done s'.done
      → SpecStep max s s'
  end :
      (t : Task)
      → Same s.waiting s'.waiting
      → Gains t s'.running s.running
      → Gains t s.done s'.done
      → SpecStep max s s'
  stay :
      Same s.waiting s'.waiting
      → Same s.running s'.running
      → Same s.done s'.done
      → SpecStep max s s'

-- No tasks.
abbrev pub nothing : Places
nothing = record { waiting = λ p. 0; running = λ p. 0; done = λ p. 0 }
