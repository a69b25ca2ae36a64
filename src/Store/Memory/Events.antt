-- ===== src/Store/Memory/Events.antt =====
-- internal/adapters/store/store.go, lines 62 to 109: the in-memory event store.
use devops_platform.Base.{
  String, concat, Map, lookup, insert, map, length, ℕ, Result, ok, err, string_eq,
}
use devops_platform.Task.Defs.{TaskEvent}
use devops_platform.Store.Port.{Value, Listing, Store, task, event, other, events}
use devops_platform.Store.Memory.Found.{found, delete_found}

abbrev pub no_event_with_key : String → String
no_event_with_key k = concat "task event with key " (concat k " does not exist")

-- the text of the error leaves the value out
unfoldable pub put : String → Value → Map String TaskEvent → Result (Map String TaskEvent)
put k (event e) db = ok (insert k e db)
put k (task t) db = err "value is not a task.TaskEvent type"
put k other db = err "value is not a task.TaskEvent type"

unfoldable pub get : String → Map String TaskEvent → Result Value
get k db = found event (no_event_with_key k) (lookup k db)

unfoldable pub list :
    (Map String TaskEvent → Map String TaskEvent) → Map String TaskEvent → Result Listing
list order db = ok (events (map (λ e. e.1) (order db)))

unfoldable pub count : Map String TaskEvent → Result ℕ
count db = ok (length db)

unfoldable pub delete : String → Map String TaskEvent → Result (Map String TaskEvent)
delete k db = delete_found db k (no_event_with_key k) (lookup k db)

abbrev pub in_memory_event_store :
    (Map String TaskEvent → Map String TaskEvent) → Store (Map String TaskEvent)
in_memory_event_store order = record {
  put = put;
  get = get;
  list = list order;
  count = count;
  delete = delete;
  mutate = λ k t db. db;
}
