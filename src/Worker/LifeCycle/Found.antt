-- ===== src/Worker/LifeCycle/Found.antt =====
-- The search of RegisterWorker (internal/adapters/worker/worker_service.go, lines 214 to 228) among the tasks
-- of a map that the runtime ranges over in some order.
use mathlib.Core.List.{Memᴰ}
use devops_platform.Base.{
  ◌≡◌, refl, ◌↔◌, Bool-cases, ◌⊎◌, inl, inr, Bool, false, true, String, List, [], ◌∷◌, map, some,
  Map, insert, ◌==◌, string_eq, if◌then◌else◌, sym, ap,
}
use devops_platform.Task.Defs.{Task}
use devops_platform.Worker.Running.{find_by_container}

abbrev pub values : Map String Task → List Task
values = map λ e. e.1

-- A range over a map gives the values that it holds.
abbrev pub IsRange : (Map String Task → Map String Task) → Type 0
IsRange order = (m : Map String Task) (a : Task) → Memᴰ a (values (order m)) ↔ Memᴰ a (values m)

-- The task alone runs in the container.
abbrev pub IsOnly : Task → String → List Task → Type 0
IsOnly t id ts = (a : Task) → Memᴰ a ts → (a.status.container_id == id) ≡ true → a ≡ t

pub find-only :
    (t : Task) (id : String) (ts : List Task)
    → (t.status.container_id == id) ≡ true
    → Memᴰ t ts
    → IsOnly t id ts
    → find_by_container id ts ≡ some t
unfolding find_by_container
find-only t id [] runs inside only = elim inside [ ]
find-only t id (x ∷ xs) runs (Memᴰ.head same) only = rw (sym same, runs) refl
find-only t id (x ∷ xs) runs (Memᴰ.tail inside) only =
    elim (Bool-cases (x.status.container_id == id)) [
      | inl b ↦ rw b (ap some (only x (Memᴰ.head refl) b))
      | inr b ↦ rw b (find-only t id xs runs inside (λ a h. only a (Memᴰ.tail h)))
    ]

pub Memᴰ-insert : (k : String) (t : Task) (m : Map String Task) → Memᴰ t (values (insert k t m))
unfolding insert
Memᴰ-insert k t [] = Memᴰ.head refl
Memᴰ-insert k t ((j, old) ∷ rest) = elim (Bool-cases (j == k)) [
  | inl b ↦ rw b (Memᴰ.head refl)
  | inr b ↦ rw b (Memᴰ.tail (Memᴰ-insert k t rest))
]

-- No stored task runs in the container.
abbrev pub IsFree : String → Map String Task → Type 0
IsFree id m = (a : Task) → Memᴰ a (values m) → (a.status.container_id == id) ≡ false

in_either :
    (b : Bool) (k j : String) (t v a : Task) (rest new : Map String Task)
    → Memᴰ a (values (if b then (k, t) ∷ rest else (j, v) ∷ new))
    → (Memᴰ a (values new) → (a ≡ t) ⊎ Memᴰ a (values rest))
    → (a ≡ t) ⊎ Memᴰ a (values ((j, v) ∷ rest))
in_either true k j t v a rest new (Memᴰ.head e) ih = inl e
in_either true k j t v a rest new (Memᴰ.tail h) ih = inr (Memᴰ.tail h)
in_either false k j t v a rest new (Memᴰ.head e) ih = inr (Memᴰ.head e)
in_either false k j t v a rest new (Memᴰ.tail h) ih = elim (ih h) [
  | inl e ↦ inl e
  | inr old ↦ inr (Memᴰ.tail old)
]

Memᴰ-insert_split :
    (k : String) (t a : Task) (m : Map String Task)
    → Memᴰ a (values (insert k t m))
    → (a ≡ t) ⊎ Memᴰ a (values m)
unfolding insert
Memᴰ-insert_split k t a [] (Memᴰ.head e) = inl e
Memᴰ-insert_split k t a [] (Memᴰ.tail h) = elim h [ ]
Memᴰ-insert_split k t a ((j, v) ∷ rest) h =
    in_either (j == k) k j t v a rest (insert k t rest) h (Memᴰ-insert_split k t a rest)

pub IsOnly-insert :
    (k : String) (t : Task) (id : String) (m : Map String Task)
    → IsFree id m
    → IsOnly t id (values (insert k t m))
IsOnly-insert k t id m free a inside runs = elim (Memᴰ-insert_split k t a m inside) [
  | inl e ↦ e
  | inr old ↦ absurd (cc (free a old))
]

-- What RegisterWorker finds of a listing in which the task is the one of its container.
pub find-insert :
    (order : Map String Task → Map String Task) (k : String) (t : Task) (id : String)
    (m : Map String Task)
    → IsRange order
    → (t.status.container_id == id) ≡ true
    → IsFree id m
    → find_by_container id (values (order (insert k t m))) ≡ some t
find-insert order k t id m range runs free =
    find-only t id (values (order (insert k t m))) runs
      ((range (insert k t m) t).1 (Memᴰ-insert k t m))
      λ a h. IsOnly-insert k t id m free a ((range (insert k t m) a).0 h)
