-- ===== src/Store/Port.antt =====
-- internal/core/ports/store.go: the interface of a store, the values that pass through its
-- `interface{}` parameters, and the laws that clients rely on.
use devops_platform.Base.{
  ℕ, ◌≡◌, false, String, List, Result, ok, err, panic, ◌==◌, string_eq, if◌then◌else◌,
}
use devops_platform.Task.Defs.{Task, TaskEvent}

-- What an `interface{}` holds: `*task.Task`, `*task.TaskEvent`, or a value of another type.
pub data Value : Type 0 where
  task : Task → Value
  event : TaskEvent → Value
  other : Value

-- What `List` returns: `[]*task.Task` or `[]*task.TaskEvent`.
pub data Listing : Type 0 where
  tasks : List Task → Listing
  events : List TaskEvent → Listing

-- value.(*task.Task) and raw.([]*task.Task), with no `ok`: a panic at another type.
abbrev pub as_task : Value → Result Task
as_task (task t) = ok t
as_task (event e) = panic
as_task other = panic

abbrev pub as_event : Value → Result TaskEvent
as_event (task t) = panic
as_event (event e) = ok e
as_event other = panic

abbrev pub as_tasks : Listing → Result (List Task)
as_tasks (tasks ts) = ok ts
as_tasks (events es) = panic

-- A store over states of type `S`. A mutating method returns the new state; on an error the
-- state is as it was. `mutate k t` is the state after the owner of the struct that was last put under
-- the key has written the task to it: an in-memory store keeps its pointer, a persistent one its bytes.
pub record Store (S : Type 0) : Type 0 where
  pub put : String → Value → S → Result S
  pub get : String → S → Result Value
  pub list : S → Result Listing
  pub count : S → Result ℕ
  pub delete : String → S → Result S
  pub mutate : String → Task → S → S

-- What the clients of a task store rely on, from its initial state on: a get answers by the last put
-- or delete of its key, and no other key is touched.
pub record IsTaskStore {S : Type 0} (store : Store S) (IsSound : S → Type 0) (init : S)
    : Type 0 where
  pub init-IsSound : IsSound init
  pub get-init : (k : String) → (e : String) × (store.get k init ≡ err e)
  pub put-IsSound :
      (k : String) (t : Task) (s : S) {s' : S}
      → IsSound s
      → store.put k (task t) s ≡ ok s'
      → IsSound s'
  pub get-put :
      (k j : String) (t : Task) (s : S) {s' : S}
      → IsSound s
      → store.put k (task t) s ≡ ok s'
      → store.get j s' ≡ (if k == j then ok (task t) else store.get j s)
  pub delete-IsSound :
      (k : String) (s : S) {s' : S} → IsSound s → store.delete k s ≡ ok s' → IsSound s'
  pub get-delete_self :
      (k : String) (s : S) {s' : S}
      → IsSound s
      → store.delete k s ≡ ok s'
      → (e : String) × (store.get k s' ≡ err e)
  pub get-delete_ne :
      (k j : String) (s : S) {s' : S}
      → IsSound s
      → store.delete k s ≡ ok s'
      → (k == j) ≡ false
      → store.get j s' ≡ store.get j s
