-- ===== src/Worker/Follows/Rules.antt =====
-- The relation between stores, and one rule for each way in which the methods of
-- internal/adapters/worker/worker_service.go are composed.
use devops_platform.Base.{
  ◌≡◌, refl, ◌∙◌, ◌⊎◌, inl, inr, Bool, true, false, String, lookup, ◌==◌, string_eq, if◌then◌else◌,
  Result, ok, err, panic, Exec, pure, raise, on_error, ignore_error, wrap_error, continue,
  rescue_with, ◌>>=◌, Bool-cases, Option-cases, arith,
}
use devops_platform.Task.State.{State, failed, valid_state_transition}
use devops_platform.Task.Graph.{◌⟶*◌, trans, one, edge-of-valid}
use devops_platform.Task.Defs.{Task, Uuid}
use devops_platform.Store.Port.{Store, IsTaskStore, task}
use devops_platform.Worker.Defs.{
  WorkerService, CommandOutput, with_state, notify_observers, put_task, fail_task,
}

module _ {S : Type 0} {store : Store S} {IsSound : S → Type 0} {init : S}
    (laws : IsTaskStore store IsSound init) where
  -- From `s` to `s'`, only the key `id` may change, and only to a task whose state is reached from
  -- `from` by allowed transitions.
  pub record Follows (from : State) (id : String) (s s' : S) : Type 0 where
    pub sound : IsSound s'
    pub answers :
        (j : String)
        → (store.get j s' ≡ store.get j s)
          ⊎ ((t : Task) × (id ≡ j) × (store.get j s' ≡ ok (task t)) × (from ⟶* t.status.state))

  pub Follows-refl : (from : State) (id : String) (s : S) → IsSound s → Follows from id s s
  Follows-refl from id s h = record { sound = h; answers = λ j. inl refl }

  pub Follows-trans :
      {from : State} {id : String} {s s' s'' : S}
      → Follows from id s s'
      → Follows from id s' s''
      → Follows from id s s''
  Follows-trans f g = record {
    sound = g.sound;
    answers = λ j. elim (g.answers j) [
      | inl same ↦ elim (f.answers j) [
        | inl same' ↦ inl (same ∙ same')
        | inr (t, e, h, r) ↦ inr (t, e, same ∙ h, r)
      ]
      | inr changed ↦ inr changed
    ];
  }

  pub Follows-put :
      {from : State} (id : String) (t : Task) {s s' : S}
      → IsSound s
      → store.put id (task t) s ≡ ok s'
      → from ⟶* t.status.state
      → Follows from id s s'
  Follows-put {from} id t {s} {s'} h e r = record {
    sound = laws.put-IsSound id t s h e;
    answers = λ j. elim (Bool-cases (id == j)) [
      | inl hit ↦ inr (t, (string_eq.equal_iff id j).0 hit, laws.get-put id j t s h e ∙ rw hit, r)
      | inr miss ↦ inl (laws.get-put id j t s h e ∙ rw miss)
    ];
  }

  -- A method follows the transitions from `from` at the key `id`, however it ends.
  pub record Keeps {ℓ} {A : Type ℓ} (from : State) (id : String) (m : Exec (WorkerService S) A)
      : Type 0 where
    pub apply : (w : WorkerService S) → IsSound w.db → Follows from id w.db (m w).1.db

  -- A method that does not write the store.
  pub Keeps-pure {ℓ} :
      {A : Type ℓ} {from : State} {id : String} (m : Exec (WorkerService S) A)
      → ((w : WorkerService S) → (m w).1.db ≡ w.db)
      → Keeps from id m
  Keeps-pure {from} {id} m e = record { apply = λ w h. rw (e w) (Follows-refl from id w.db h) }

  pub Keeps-tt : (from : State) (id : String) → Keeps {A = Unit {0}} from id (pure tt)
  Keeps-tt from id = Keeps-pure {A = Unit {0}} (pure tt) λ w. refl

  pub Keeps-raise {ℓ} :
      {A : Type ℓ} (from : State) (id e : String) → Keeps {A = A} from id (raise e)
  Keeps-raise {A} from id e = Keeps-pure {A = A} (raise e) λ w. refl

  -- From a state that `from` reaches.
  pub Follows-from :
      {from mid : State} {id : String} {s s' : S}
      → from ⟶* mid
      → Follows mid id s s'
      → Follows from id s s'
  Follows-from r f = record {
    sound = f.sound;
    answers = λ j. elim (f.answers j) [
      | inl same ↦ inl same
      | inr (t, e, h, q) ↦ inr (t, e, h, trans r q)
    ];
  }

  pub Keeps-from {ℓ} :
      {A : Type ℓ} {from mid : State} {id : String} (m : Exec (WorkerService S) A)
      → from ⟶* mid
      → Keeps mid id m
      → Keeps from id m
  Keeps-from m r k = record { apply = λ w h. Follows-from r (k.apply w h) }

  Keeps-continue {ℓ κ} :
      {A : Type ℓ} {B : Type κ} {from : State} {id : String} (f : A → Exec (WorkerService S) B)
      → ((a : A) → Keeps from id (f a))
      → (r : Result A) → Keeps from id (continue r f)
  Keeps-continue f hf (ok a) = record { apply = (hf a).apply }
  Keeps-continue {from} {id} f hf (err e) = record { apply = λ w h. Follows-refl from id w.db h }
  Keeps-continue {from} {id} f hf panic = record { apply = λ w h. Follows-refl from id w.db h }

  pub Keeps-bind {ℓ κ} :
      {A : Type ℓ} {B : Type κ} {from : State} {id : String} (m : Exec (WorkerService S) A)
      (f : A → Exec (WorkerService S) B)
      → Keeps from id m
      → ((a : A) → Keeps from id (f a))
      → Keeps from id (m >>= f)
  unfolding ◌>>=◌
  Keeps-bind m f hm hf = record {
    apply = λ w h.
        let first = hm.apply w h in
        Follows-trans first ((Keeps-continue f hf (m w).0).apply (m w).1 first.sound);
  }

  pub Keeps-wrap {ℓ} :
      {A : Type ℓ} {from : State} {id : String} (m : Exec (WorkerService S) A) (f : String → String)
      → Keeps from id m
      → Keeps from id (wrap_error m f)
  unfolding wrap_error
  Keeps-wrap m f hm = record { apply = hm.apply }

  pub Keeps-ignore :
      {from : State} {id : String} (m : Exec (WorkerService S) (Unit {0}))
      → Keeps from id m
      → Keeps from id (ignore_error m)
  unfolding ignore_error
  Keeps-ignore {from} {id} m hm = record { apply = λ w h. same w (m w).0 (m w).1 (hm.apply w h) }
    where
      same :
          (w : WorkerService S) (r : Result (Unit {0})) (w' : WorkerService S)
          → Follows from id w.db w'.db
          → Follows from id w.db (ignore_error (λ _. (r, w')) w).1.db
      same w (ok a) w' g = g
      same w (err e) w' g = g
      same w panic w' g = g

  Keeps-rescue {ℓ} :
      {A : Type ℓ} {from : State} {id : String}
      (handler : String → Exec (WorkerService S) (Unit {0}))
      → ((e : String) → Keeps from id (handler e))
      → (r : Result A) → Keeps from id (rescue_with handler r)
  Keeps-rescue {from} {id} handler hh (ok a) = record { apply = λ w h. Follows-refl from id w.db h }
  Keeps-rescue {A} {from} {id} handler hh (err e) = record {
    apply = λ w h. same w (handler e w).0 (handler e w).1 ((hh e).apply w h);
  }
    where
      same :
          (w : WorkerService S) (r : Result (Unit {0})) (w' : WorkerService S)
          → Follows from id w.db w'.db
          → Follows from id w.db (rescue_with {A = A} (λ _ _. (r, w')) (err e) w).1.db
      same w (ok a) w' g = g
      same w (err d) w' g = g
      same w panic w' g = g
  Keeps-rescue {from} {id} handler hh panic = record { apply = λ w h. Follows-refl from id w.db h }

  pub Keeps-on_error {ℓ} :
      {A : Type ℓ} {from : State} {id : String} (m : Exec (WorkerService S) A)
      (handler : String → Exec (WorkerService S) (Unit {0}))
      → Keeps from id m
      → ((e : String) → Keeps from id (handler e))
      → Keeps from id (on_error m handler)
  unfolding on_error
  Keeps-on_error m handler hm hh = record {
    apply = λ w h.
        let first = hm.apply w h in
        Follows-trans first ((Keeps-rescue handler hh (m w).0).apply (m w).1 first.sound);
  }

  -- Under a test, with its equation.
  pub Keeps-if {ℓ} :
      {A : Type ℓ} {from : State} {id : String} (b : Bool) (m n : Exec (WorkerService S) A)
      → (b ≡ true → Keeps from id m)
      → (b ≡ false → Keeps from id n)
      → Keeps from id (if b then m else n)
  Keeps-if true m n hm hn = hm refl
  Keeps-if false m n hm hn = hn refl

  pub Keeps-notify :
      {from : State} {id : String} (task_id : String) (output : CommandOutput)
      → Keeps from id (notify_observers task_id output)
  unfolding notify_observers
  Keeps-notify task_id output =
      Keeps-pure (notify_observers task_id output)
        λ w. ground (arith, Option-cases (lookup task_id w.observers))

module _ {S : Type 0} {store : Store S} {IsSound : S → Type 0} {init : S}
    (laws : IsTaskStore store IsSound init) (id_string : Uuid → String) where
  pub Keeps-put_task :
      {from : State} (t : Task)
      → from ⟶* t.status.state
      → Keeps laws from (id_string t.metadata.id) (put_task store id_string t)
  unfolding put_task
  Keeps-put_task {from} t r = record {
    apply = λ w h. written w h (store.put (id_string t.metadata.id) (task t) w.db) refl;
  }
    where
      written :
          (w : WorkerService S) (h : IsSound w.db) (a : Result S)
          → store.put (id_string t.metadata.id) (task t) w.db ≡ a
          → Follows laws from (id_string t.metadata.id) w.db (put_task store id_string t w).1.db
      written w h (ok db) e = rw (e, put_task) (Follows-put laws (id_string t.metadata.id) t h e r)
      written w h (err x) e = rw (e, put_task) (Follows-refl laws from _ w.db h)
      written w h panic e = rw (e, put_task) (Follows-refl laws from _ w.db h)

  pub Keeps-fail_task :
      {from : State} (t : Task) (msg : String)
      → from ⟶* t.status.state
      → Keeps laws from (id_string t.metadata.id) (fail_task store id_string t msg)
  unfolding fail_task
  Keeps-fail_task t msg r =
      Keeps-if laws (valid_state_transition t.status.state failed) _ _
        (λ v.
          Keeps-bind laws _ _
            (Keeps-ignore laws _ (
              Keeps-put_task (with_state failed msg t)
                (trans r (one (edge-of-valid t.status.state failed v)))))
            (λ _. Keeps-notify laws _ _))
        (λ _. Keeps-pure laws {A = Unit {0}} (pure tt) λ w. refl)
