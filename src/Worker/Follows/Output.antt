-- ===== src/Worker/Follows/Output.antt =====
-- updateTaskStatus and processTaskOutput of internal/adapters/worker/worker_service.go against the life
-- cycle of a task.
use mathlib.Core.Option
use devops_platform.Base.{
  ℕ, ◌≡◌, refl, ◌∙◌, ◌⊎◌, inl, inr, true, String, List, [], ◌∷◌, Option, none, some, Result, ok,
  err, panic, Exec, continue, pure, ◌>>=◌, string_eq, arith,
}
use devops_platform.Task.State.{valid_state_transition}
use devops_platform.Task.Graph.{◌⟶*◌, here, one, edge-of-valid}
use devops_platform.Task.Defs.{Task, TaskStatus}
use devops_platform.Store.Port.{Store, IsTaskStore, task}
use devops_platform.Worker.Defs.{WorkerService, CommandOutput}
use devops_platform.Worker.Running.{
  output_status, with_result, store_status, update_task_status, process_task_output,
}
use devops_platform.Worker.Follows.Rules.{
  Follows, Follows-refl, Follows-trans, Follows-put, Follows-from, Keeps-notify,
}

output_status_valid :
    (now : ℕ) (word : String) (s : TaskStatus) {s' : TaskStatus}
    → output_status now word s ≡ some s'
    → (s'.state ≡ s.state) ⊎ (valid_state_transition s.state s'.state ≡ true)
unfolding output_status
output_status_valid now word s h = ground arith

output_status-⟶* :
    (now : ℕ) (word : String) (s : TaskStatus) {s' : TaskStatus}
    → output_status now word s ≡ some s'
    → s.state ⟶* s'.state
output_status-⟶* now word s {s'} h = elim (output_status_valid now word s h) [
  | inl same ↦ rw same here
  | inr v ↦ one (edge-of-valid s.state s'.state v)
]

module _ {S : Type 0} {store : Store S} {IsSound : S → Type 0} {init : S}
    (laws : IsTaskStore store IsSound init) where
  store_status-Follows :
      (id : String) (t : Task) (s : TaskStatus) (w : WorkerService S)
      → IsSound w.db
      → t.status.state ⟶* s.state
      → Follows laws t.status.state id w.db (store_status store id t (some s) w).1.db
  unfolding store_status
  store_status-Follows id t s w h r = written (store.put id (task t') w.db) refl
    where
      t' : Task
      t' = record t { status = s }

      written :
          (a : Result S)
          → store.put id (task t') w.db ≡ a
          → Follows laws t.status.state id w.db (store_status store id t (some s) w).1.db
      written (ok db) e = rw (e, store_status) (Follows-put laws id t' h e r)
      written (err x) e = rw (e, store_status) (Follows-refl laws _ _ _ h)
      written panic e = rw (e, store_status) (Follows-refl laws _ _ _ h)

  -- One output: the stored task moves along at most one allowed transition.
  pub update_task_status-Follows :
      (now : ℕ) (id : String) (output : CommandOutput) (w : WorkerService S) (t : Task)
      → IsSound w.db
      → store.get id w.db ≡ ok (task t)
      → Follows laws t.status.state id w.db (update_task_status store now id output w).1.db
  unfolding update_task_status
  update_task_status-Follows now id output w t h g =
      rw (g, update_task_status) (by_case (output_status now output.state t.status) refl)
    where
      by_case :
          (o : Option TaskStatus)
          → output_status now output.state t.status ≡ o
          → Follows laws t.status.state id w.db
              (store_status store id t
                (Option.map (with_result output) (output_status now output.state t.status))
                w).1.db
      by_case none e = rw (e) (Follows-refl laws _ _ _ h)
      by_case (some s) e = rw (e) (
          store_status-Follows id t (with_result output s) w h
            (output_status-⟶* now output.state t.status e))

  -- A method that moves the stored task at `id`, wherever it starts, along allowed transitions.
  record Tracks (id : String) (m : Exec (WorkerService S) (Unit {0})) : Type 0 where
    apply :
        (w : WorkerService S) (t : Task)
        → IsSound w.db
        → store.get id w.db ≡ ok (task t)
        → Follows laws t.status.state id w.db (m w).1.db

  Tracks-pure :
      {id : String} (m : Exec (WorkerService S) (Unit {0}))
      → ((w : WorkerService S) → (m w).1.db ≡ w.db)
      → Tracks id m
  Tracks-pure m e = record { apply = λ w t h g. rw (e w) (Follows-refl laws _ _ _ h) }

  Tracks-continue :
      {id : String} (f : Unit {0} → Exec (WorkerService S) (Unit {0}))
      → ((a : Unit {0}) → Tracks id (f a))
      → (r : Result (Unit {0})) → Tracks id (continue r f)
  Tracks-continue f hf (ok a) = record { apply = (hf a).apply }
  Tracks-continue f hf (err e) = record { apply = λ w t h g. Follows-refl laws _ _ _ h }
  Tracks-continue f hf panic = record { apply = λ w t h g. Follows-refl laws _ _ _ h }

  Tracks-bind :
      {id : String} (m : Exec (WorkerService S) (Unit {0}))
      (f : Unit {0} → Exec (WorkerService S) (Unit {0}))
      → Tracks id m
      → ((a : Unit {0}) → Tracks id (f a))
      → Tracks id (m >>= f)
  unfolding ◌>>=◌
  Tracks-bind {id} m f hm hf = record {
    apply = λ w t h g.
        let first = hm.apply w t h g in
        let rest = Tracks-continue f hf (m w).0 in
        elim (first.answers id) [
          | inl same ↦ Follows-trans laws first (rest.apply (m w).1 t first.sound (same ∙ g))
          | inr (t', _, g', r) ↦
              Follows-trans laws first (Follows-from laws r (rest.apply (m w).1 t' first.sound g'))
        ];
  }

  process_task_output-Tracks :
      (outputs : List (ℕ × CommandOutput)) (id : String)
      → Tracks id (process_task_output store outputs id)
  unfolding process_task_output
  process_task_output-Tracks [] id = Tracks-pure (pure tt) λ w. refl
  process_task_output-Tracks ((now, output) ∷ outputs) id =
      Tracks-bind _ _ (record { apply = λ w t h g. (Keeps-notify laws id output).apply w h })
        λ _.
          Tracks-bind _ _ (record { apply = update_task_status-Follows now id output })
            λ _. process_task_output-Tracks outputs id

  -- From a store that has a task under the key, processTaskOutput, whatever the outputs say, changes
  -- the store at that key only, and only to a task whose state is reached from the stored task's by
  -- allowed transitions.
  pub process_task_output-Follows :
      (outputs : List (ℕ × CommandOutput)) (id : String) (w : WorkerService S) (t : Task)
      → IsSound w.db
      → store.get id w.db ≡ ok (task t)
      → Follows laws t.status.state id w.db (process_task_output store outputs id w).1.db
  process_task_output-Follows outputs id = (process_task_output-Tracks outputs id).apply
