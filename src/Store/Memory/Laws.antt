-- ===== src/Store/Memory/Laws.antt =====
-- The in-memory task store (internal/adapters/store/store.go, lines 13 to 60) and the laws of the port.
use devops_platform.Base.{
  ℕ, ◌≡◌, refl, suc, String, Map, lookup, insert, [], none, some, ok, err, string_eq, ◌==◌,
  if◌then◌else◌, arith, lookup-insert, lookup-remove, HasDistinctKeys, insert-HasDistinctKeys,
  remove-HasDistinctKeys, length-insert, beq_refl,
}
use devops_platform.Task.Defs.{Task}
use devops_platform.Store.Port.{IsTaskStore, task}
use devops_platform.Store.Memory.Tasks.{
  put, get, count, delete, no_task_with_key, in_memory_task_store,
}

put-HasDistinctKeys :
    (k : String) (t : Task) (s : Map String Task) {s' : Map String Task}
    → HasDistinctKeys s
    → put k (task t) s ≡ ok s'
    → HasDistinctKeys s'
unfolding put
put-HasDistinctKeys k t s d h = ground (arith, insert-HasDistinctKeys k t s)

get-put :
    (k j : String) (t : Task) (s : Map String Task) {s' : Map String Task}
    → HasDistinctKeys s
    → put k (task t) s ≡ ok s'
    → get j s' ≡ (if k == j then ok (task t) else get j s)
unfolding put get
get-put k j t s d h = ground (arith, lookup-insert k j t s)

delete-HasDistinctKeys :
    (k : String) (s : Map String Task) {s' : Map String Task}
    → HasDistinctKeys s
    → delete k s ≡ ok s'
    → HasDistinctKeys s'
unfolding delete
delete-HasDistinctKeys k s d h = ground (arith, remove-HasDistinctKeys k s)

-- In a map with one entry for each key, a delete that succeeds makes its key missing, and leaves what
-- every other key gives.
pub memory_get-delete :
    (k j : String) (s : Map String Task) {s' : Map String Task}
    → HasDistinctKeys s
    → delete k s ≡ ok s'
    → get j s' ≡ (if k == j then err (no_task_with_key j) else get j s)
unfolding delete get
memory_get-delete k j s d h = ground (arith, lookup-remove k j s)

-- A put of a task always succeeds; its key then gives the task, and every other key what it gave before.
pub memory_get-put :
    (k j : String) (t : Task) (s : Map String Task)
    → (s' : Map String Task) × (put k (task t) s ≡ ok s')
      × (get j s' ≡ (if k == j then ok (task t) else get j s))
unfolding put get
memory_get-put k j t s = (insert k t s, refl, ground (arith, lookup-insert k j t s))

-- In whatever order the runtime ranges over it, the in-memory task store meets the laws of a task
-- store, from the empty map on.
pub memory_laws :
    (order : Map String Task → Map String Task)
    → IsTaskStore (in_memory_task_store order) HasDistinctKeys []
unfolding get lookup
memory_laws order = record {
  init-IsSound = tt;
  get-init = λ k. (no_task_with_key k, refl);
  put-IsSound = put-HasDistinctKeys;
  get-put = get-put;
  delete-IsSound = delete-HasDistinctKeys;
  get-delete_self =
      λ k s d h. (no_task_with_key k, ground (arith, memory_get-delete k k s d h, beq_refl k));
  get-delete_ne = λ k j s d h ne. ground (arith, memory_get-delete k j s d h);
}

-- A put of a task adds one to Count exactly when its key is new.
pub count-put :
    (k : String) (t : Task) (s : Map String Task) {s' : Map String Task} (n : ℕ)
    → put k (task t) s ≡ ok s'
    → count s ≡ ok n
    → count s' ≡ elim (lookup k s) [ none ↦ ok (suc n) | some _ ↦ ok n ]
unfolding put count
count-put k t s n h c = ground (arith, length-insert k t s)
