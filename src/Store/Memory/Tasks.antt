-- ===== src/Store/Memory/Tasks.antt =====
-- internal/adapters/store/store.go, lines 13 to 60: the in-memory task store.
use devops_platform.Base.{
  String, concat, Map, lookup, none, some, insert, map, length, ℕ, Result, ok, err, string_eq,
}
use devops_platform.Task.Defs.{Task}
use devops_platform.Store.Port.{Value, Listing, Store, task, event, other, tasks}
use devops_platform.Store.Memory.Found.{found, delete_found}

abbrev pub no_task_with_key : String → String
no_task_with_key k = concat "task with key " (concat k " does not exist")

-- the text of the error leaves the value out
unfoldable pub put : String → Value → Map String Task → Result (Map String Task)
put k (task t) db = ok (insert k t db)
put k (event e) db = err "value is not a task.Task type"
put k other db = err "value is not a task.Task type"

unfoldable pub get : String → Map String Task → Result Value
get k db = found task (no_task_with_key k) (lookup k db)

unfoldable pub list : (Map String Task → Map String Task) → Map String Task → Result Listing
list order db = ok (tasks (map (λ e. e.1) (order db)))

unfoldable pub count : Map String Task → Result ℕ
count db = ok (length db)

unfoldable pub delete : String → Map String Task → Result (Map String Task)
delete k db = delete_found db k (no_task_with_key k) (lookup k db)

-- `i.Db[key] = t` keeps the pointer.
unfoldable pub mutate : String → Task → Map String Task → Map String Task
mutate k t db = elim (lookup k db) [ none ↦ db | some _ ↦ insert k t db ]

abbrev pub in_memory_task_store : (Map String Task → Map String Task) → Store (Map String Task)
in_memory_task_store order = record {
  put = put;
  get = get;
  list = list order;
  count = count;
  delete = delete;
  mutate = mutate;
}
