-- ===== src/Store/Factory.antt =====
-- internal/adapters/store/factory.go: the store of a configured type.
use devops_platform.Base.{
  ◌≡◌, false, String, concat, Map, [], Option, none, Result, ok, err, panic, ◌==◌, string_eq,
  if◌then◌else◌, arith,
}
use devops_platform.Task.Defs.{Task}
use devops_platform.Store.Bolt.Driver.{Driver, Codec}
use devops_platform.Store.Bolt.Tasks.{new_task_store}

-- What the interface value holds: a memory store, an open file, a nil `*TaskStore`, or nothing.
pub data Handle (D : Type 0) : Type 0 where
  memory : Map String Task → Handle D
  persistent : D → Handle D
  nil_pointer : Handle D
  nil_interface : Handle D

module _ {D Bytes : Type 0} (driver : Driver D Bytes) (codec : Codec Task Bytes) where
  -- `open_file` is bolt.Open. The second value is the error that is returned.
  unfoldable pub new_store :
      (String → Result D) → String → String → Result (Handle D × Option String)
  new_store open_file kind name =
      if kind == "memory"
      then ok (memory [], none)
      else if kind == "persistent"
      then (elim (new_task_store driver codec (concat name "_tasks.db") "tasks"
          (open_file (concat name "_tasks.db"))) [
            | ok db ↦ ok (persistent db, none)
            | err e ↦ ok (nil_pointer, none)
            | panic ↦ panic
          ])
      else ok (nil_interface, none)

  -- For a file that does not open NewStore returns no error: a nil pointer for the type "persistent",
  -- and nil for every type other than "memory" and "persistent".
  pub new_store_silent :
      (open_file : String → Result D) (kind name e : String)
      → open_file (concat name "_tasks.db") ≡ err e
      → (kind == "memory") ≡ false
      → new_store open_file kind name
        ≡ (if kind == "persistent" then ok (nil_pointer, none) else ok (nil_interface, none))
  unfolding new_store new_task_store
  new_store_silent open_file kind name e fails other = ground arith
