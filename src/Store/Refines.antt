-- ===== src/Store/Refines.antt =====
-- The task stores of internal/adapters/store/store.go against the table of Store/Replay.antt.
use devops_platform.Base.{◌≡◌, String, List, [], Map, none}
use devops_platform.Task.Defs.{Task}
use devops_platform.Store.Memory.Tasks.{in_memory_task_store}
use devops_platform.Store.Memory.Laws.{memory_laws}
use devops_platform.Store.Bolt.Driver.{Driver, Codec, IsDriver, IsCodec}
use devops_platform.Store.Bolt.Tasks.{bolt_task_store}
use devops_platform.Store.Bolt.Laws.{bolt_laws, IsOpen}
use devops_platform.Store.Replay.{Write, replay, run, view, run_refines}

-- The in-memory task store implements the table: after any puts and deletes from the empty map, Get gives at
-- every key what those that did not fail leave in a table that was empty.
pub memory_refines :
    (order : Map String Task → Map String Task) (ws : List Write) (k : String)
    → let store = in_memory_task_store order in
      view store (run store ws []).0 k ≡ replay (run store ws []).1 (λ j. none) k
memory_refines order = run_refines (memory_laws order)

-- Over a database and a codec that honour their contracts, the persistent task store implements the table: after
-- any puts and deletes from an open file whose bucket is there and empty, Get gives at every key what those
-- that did not fail leave in a table that was empty.
pub bolt_refines :
    {D Bytes : Type 0} (driver : Driver D Bytes) (codec : Codec Task Bytes) (bucket : String)
    (d : IsDriver driver) (c : IsCodec codec) (init : D) (ws : List Write) (k : String)
    → IsOpen driver codec bucket d c init
    → ((j : String) → driver.bucket_get bucket j init ≡ none)
    → let store = bolt_task_store driver codec bucket in
      view store (run store ws init).0 k ≡ replay (run store ws init).1 (λ j. none) k
bolt_refines driver codec bucket d c init ws k open_file empty =
    run_refines (bolt_laws driver codec bucket d c init open_file empty) ws k
