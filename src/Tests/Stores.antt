-- ===== src/Tests/Stores.antt =====
-- The laws of the stores at concrete ones: the database is a map of tasks that are stored as they are.
use devops_platform.Base.{
  List, ◌≡◌, refl, sym, ap, true, ok, some, none, [], ◌∷◌, String, Option, Result, if◌then◌else◌,
  ◌==◌, string_eq,
}
use devops_platform.Task.State.{pending, running}
use devops_platform.Task.Defs.{Task}
use devops_platform.Store.Bolt.Driver.{Driver, Codec, IsDriver, IsCodec}
use devops_platform.Store.Bolt.Tasks.{bolt_task_store}
use devops_platform.Store.Replay
use devops_platform.Store.Replay.{Write, view, run, replay}
use devops_platform.Store.Bolt.Tasks as Bolt
use devops_platform.Store.Agree.{stores_agree}
use devops_platform.Store.Refines.{memory_refines, bolt_refines}
use devops_platform.Tests.Fixtures.{task_in, store}

-- A database is the content of its one bucket, which is there.
abbrev Database : Type 0
Database = String → Option Task

abbrev driver : Driver Database Task
driver = record {
  view = λ s. ok tt;
  create_bucket = λ b s. ok s;
  has_bucket = λ b s. true;
  bucket_put = λ b k v s. ok (λ j. if k == j then some v else s j);
  bucket_get = λ b k s. s k;
  bucket_delete = λ b k s. ok (λ j. if k == j then none else s j);
  for_each = λ b s. [];
}

abbrev codec : Codec Task Task
codec = record { marshal = λ t. ok t; unmarshal = λ t. ok t }

content : {s s' : Database} → ◌≡◌ {A = Result Database} (ok s) (ok s') → (j : String) → s' j ≡ s j
content {s} e j = ap (λ r. elim r [ ok d ↦ d j | _ ↦ s j ]) (sym e)

driver-IsDriver : IsDriver driver
driver-IsDriver = record {
  put-get = λ b k j v s e. content e j;
  delete-get = λ b k j s e. content e j;
  put-has_bucket = λ b c k v s e. refl;
  delete-has_bucket = λ b c k s e. refl;
  put-view = λ b k v s e. (refl, refl);
  delete-view = λ b k s e. (refl, refl);
}

codec-IsCodec : IsCodec codec
codec-IsCodec = record { unmarshal-marshal = λ t e. sym e }

abbrev writes : List Write
writes =
    Replay.put "1" (task_in pending) ∷ Replay.delete "2" ∷ Replay.put "1" (task_in running) ∷ []

memory_refines_example :
    view store (run store writes []).0 "1" ≡ replay (run store writes []).1 (λ j. none) "1"
memory_refines_example = memory_refines (λ m. m) writes "1"

bolt_refines_example :
    let file = bolt_task_store driver codec "tasks" in
    view file (run file writes λ j. none).0 "1"
    ≡ replay (run file writes λ j. none).1 (λ j. none) "1"
bolt_refines_example =
    bolt_refines driver codec "tasks" driver-IsDriver codec-IsCodec (λ j. none) writes "1"
      (refl, refl) λ j. refl

stores_agree_example :
    let file = bolt_task_store driver codec "tasks" in
    view store (run store writes []).0 "1" ≡ view file (run file writes λ j. none).0 "1"
unfolding Bolt.put Bolt.delete
stores_agree_example =
    stores_agree (λ m. m) driver codec "tasks" driver-IsDriver codec-IsCodec (λ j. none) writes "1"
      (refl, refl) (λ j. refl) refl
