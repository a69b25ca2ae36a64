-- ===== src/Worker/Observers.antt =====
-- Which observers NotifyObservers of internal/adapters/worker/worker_service.go calls after any registrations, and
-- how often.
use mathlib.Core.List.{append-nil, append_assoc}
use devops_platform.Base.{
  ℕ, ◌+◌, ◌&&◌, Bool, arith, ◌≡◌, refl, ◌∙◌, sym, ap, String, List, [], ◌∷◌, ◌++◌, Option, none,
  some, lookup, lookup-insert, ok, Result, ◌==◌, string_eq, if◌then◌else◌, Bool-cases, inl, inr,
}
use devops_platform.Worker.Defs.{
  Calls, launched, WorkerService, CommandOutput, registered, register_observer, notify_observers,
}

-- The observers that were registered for the task, in the order of their registration.
abbrev pub observers_of : String → List (String × ℕ) → List ℕ
observers_of id [] = []
observers_of id ((j, o) ∷ rs) = if j == id then o ∷ observers_of id rs else observers_of id rs

-- How many of the observers pass the test, and how many registrations for the task are of one that does.
abbrev pub counted : (ℕ → Bool) → List ℕ → ℕ
counted q [] = 0
counted q (o ∷ os) = (if q o then 1 else 0) + counted q os

abbrev pub registrations : (ℕ → Bool) → String → List (String × ℕ) → ℕ
registrations q id [] = 0
registrations q id ((j, o) ∷ rs) = (if j == id && q o then 1 else 0) + registrations q id rs

counted-append :
    (q : ℕ → Bool) (xs ys : List ℕ) → counted q (xs ++ ys) ≡ counted q xs + counted q ys
counted-append q [] ys = omega arith
counted-append q (x ∷ xs) ys = omega (arith, counted-append q xs ys)

counted-observers_of :
    (q : ℕ → Bool) (id : String) (rs : List (String × ℕ))
    → counted q (observers_of id rs) ≡ registrations q id rs
counted-observers_of q id [] = refl
counted-observers_of q id ((j, o) ∷ rs) = elim (Bool-cases (j == id)) [
  | inl b ↦ rw b (ap (λ n. (if q o then 1 else 0) + n) (counted-observers_of q id rs))
  | inr b ↦ rw b (omega (arith, counted-observers_of q id rs))
]

launched-counted :
    (p : ℕ × CommandOutput → Bool) (output : CommandOutput) (os : List ℕ) (calls : Calls)
    → launched output os calls p ≡ calls p + counted (λ o. p (o, output)) os
launched-counted p output [] calls = omega arith
launched-counted p output (o ∷ os) calls = omega (arith, launched-counted p output os calls)

abbrev those : Option (List ℕ) → List ℕ
those none = []
those (some os) = os

module _ {S : Type 0} where
  abbrev pub register_all : List (String × ℕ) → WorkerService S → WorkerService S
  register_all [] w = w
  register_all ((id, o) ∷ rs) w = register_all rs (register_observer id o w).1

  those-registered :
      (id : String) (w : WorkerService S) → registered w id ≡ those (lookup id w.observers)
  those-registered id w = by_lookup (lookup id w.observers)
    where
      by_lookup :
          (o : Option (List ℕ)) → (elim o as (λ _. List ℕ) [ none ↦ [] | some os ↦ os ]) ≡ those o
      by_lookup none = refl
      by_lookup (some os) = refl

  registered-register :
      (id j : String) (o : ℕ) (w : WorkerService S)
      → registered (register_observer j o w).1 id
        ≡ (if j == id then registered w id ++ o ∷ [] else registered w id)
  unfolding register_observer
  registered-register id j o w =
      those-registered id (register_observer j o w).1
      ∙ (ap those (lookup-insert j id (registered w j ++ o ∷ []) w.observers) ∙ by_key)
    where
      by_key :
          those (if j == id then some (registered w j ++ o ∷ []) else lookup id w.observers)
          ≡ (if j == id then registered w id ++ o ∷ [] else registered w id)
      by_key = elim (Bool-cases (j == id)) [
        | inl b ↦ rw b (ap (λ k. registered w k ++ o ∷ []) ((string_eq.equal_iff j id).0 b))
        | inr b ↦ rw b (sym (those-registered id w))
      ]

  registered-all :
      (id : String) (rs : List (String × ℕ)) (w : WorkerService S)
      → registered (register_all rs w) id ≡ registered w id ++ observers_of id rs
  registered-all id [] w = sym (append-nil (registered w id))
  registered-all id ((j, o) ∷ rs) w = elim (Bool-cases (j == id)) [
    | inl b ↦ rw b (
        registered-all id rs (register_observer j o w).1
        ∙ (ap (λ l. l ++ observers_of id rs) (registered-register id j o w ∙ rw b refl)
            ∙ append_assoc (registered w id) (o ∷ []) (observers_of id rs)))
    | inr b ↦ rw b (
        registered-all id rs (register_observer j o w).1
        ∙ ap (λ l. l ++ observers_of id rs) (registered-register id j o w ∙ rw b refl))
  ]

  notified-notify :
      (p : ℕ × CommandOutput → Bool) (id : String) (output : CommandOutput) (w : WorkerService S)
      → (notify_observers id output w).1.notified p
        ≡ w.notified p + counted (λ o. p (o, output)) (registered w id)
  unfolding notify_observers
  notified-notify p id output w = by_lookup (lookup id w.observers)
    where
      by_lookup :
          (o : Option (List ℕ))
          → (elim o as (λ _. Result (Unit {0}) × WorkerService S) [
            | none ↦ (ok tt, w)
            | some os ↦ (ok tt, record w { notified = launched output os w.notified })
          ]).1.notified
              p
            ≡ w.notified p
              + counted (λ o. p (o, output)) (elim o as (λ _. List ℕ) [ none ↦ [] | some os ↦ os ])
      by_lookup none = omega arith
      by_lookup (some os) = launched-counted p output os w.notified

  notified-all :
      (rs : List (String × ℕ)) (w : WorkerService S) → (register_all rs w).notified ≡ w.notified
  unfolding register_observer
  notified-all [] w = refl
  notified-all ((j, o) ∷ rs) w = notified-all rs (register_observer j o w).1

  -- After any registrations NotifyObservers calls, in no order, each observer with the output as often as it was
  -- registered for that task, before them or by them, and makes no other call: the calls that pass any test grow
  -- by the number of those registrations whose call passes it.
  pub notify-register_all :
      (rs : List (String × ℕ)) (id : String) (output : CommandOutput) (w : WorkerService S)
      (p : ℕ × CommandOutput → Bool)
      → (notify_observers id output (register_all rs w)).1.notified p
        ≡ w.notified p
          + counted (λ o. p (o, output)) (registered w id)
          + registrations (λ o. p (o, output)) id rs
  notify-register_all rs id output w p =
      let q : ℕ → Bool = λ o. p (o, output) in
      let before : (register_all rs w).notified p ≡ w.notified p =
        ap (λ c. c p) (notified-all rs w) in
      let all : counted q (registered (register_all rs w) id)
          ≡ counted q (registered w id) + registrations q id rs =
        ap (counted q) (registered-all id rs w)
        ∙ counted-append q (registered w id) (observers_of id rs)
        ∙ ap (λ n. counted q (registered w id) + n) (counted-observers_of q id rs) in
      omega (arith, notified-notify p id output (register_all rs w), before, all)
