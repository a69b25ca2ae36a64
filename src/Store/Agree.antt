-- ===== src/Store/Agree.antt =====
-- The two task stores of internal/adapters/store/store.go under the same writes.
use devops_platform.Base.{
  ◌≡◌, refl, ◌∙◌, sym, ap, insert, String, List, [], ◌∷◌, Map, none, some, Option, ◌==◌, string_eq,
  if◌then◌else◌, arith, lookup, lookup-insert, lookup-remove, HasDistinctKeys,
  insert-HasDistinctKeys, remove-HasDistinctKeys,
}
use devops_platform.Task.Defs.{Task}
use devops_platform.Store.Port.{Store, task}
use devops_platform.Store.Memory.Tasks
use devops_platform.Store.Memory.Tasks.{in_memory_task_store, no_task_with_key}
use devops_platform.Store.Memory.Found.{found, delete_found}
use devops_platform.Store.Bolt.Driver.{Driver, Codec, IsDriver, IsCodec}
use devops_platform.Store.Bolt.Tasks.{bolt_task_store}
use devops_platform.Store.Bolt.Laws.{IsOpen}
use devops_platform.Store.Replay.{
  Write, put, delete, set, replay, replay-cong, seen, run, view, note, write,
}
use devops_platform.Store.Refines.{bolt_refines}

module _ (order : Map String Task → Map String Task) where
  abbrev memory : Store (Map String Task)
  memory = in_memory_task_store order

  -- The map after a write, also after one that fails.
  abbrev after : Write → Map String Task → Map String Task
  after w s = note memory w s (write memory w s)

  -- What Get shows of the map is its entry.
  view-lookup : (s : Map String Task) (k : String) → view memory s k ≡ lookup k s
  unfolding Tasks.get
  view-lookup s k = of_found (lookup k s)
    where
      of_found : (o : Option Task) → seen (found task (no_task_with_key k) o) ≡ o
      of_found none = refl
      of_found (some t) = refl

  after_delete :
      (j : String) (s : Map String Task) (o : Option Task)
      → lookup j s ≡ o
      → HasDistinctKeys s
      → HasDistinctKeys (note memory (delete j) s (delete_found s j (no_task_with_key j) o))
        × ((k : String)
            → lookup k (note memory (delete j) s (delete_found s j (no_task_with_key j) o))
              ≡ (if j == k then none else lookup k s))
  after_delete j s none e d = (d, λ k. ground (arith, string_eq.equal_iff j k))
  after_delete j s (some t) e d = (remove-HasDistinctKeys j s d, λ k. lookup-remove j k s d)

  after_write :
      (w : Write) (s : Map String Task)
      → HasDistinctKeys s
      → HasDistinctKeys (after w s)
        × ((k : String) → view memory (after w s) k ≡ set w (view memory s) k)
  unfolding Tasks.put Tasks.delete
  after_write (put j t) s d = (
    insert-HasDistinctKeys j t s d,
    λ k. rw (view-lookup (insert j t s) k, view-lookup s k) (lookup-insert j k t s),
  )
  after_write (delete j) s d =
      let (d', gone) = after_delete j s (lookup j s) refl d in
      (d', λ k. view-lookup (after (delete j) s) k ∙ (gone k ∙ rw (view-lookup s k) refl))

  -- The in-memory store is the table of all writes: one that fails is a delete of a missing key.
  view-run_memory :
      (ws : List Write) (s : Map String Task)
      → HasDistinctKeys s
      → (k : String) → view memory (run memory ws s).0 k ≡ replay ws (view memory s) k
  view-run_memory [] s d k = refl
  view-run_memory (w ∷ ws) s d k =
      let (d', one) = after_write w s d in
      view-run_memory ws (after w s) d' k
      ∙ replay-cong ws (view memory (after w s)) (set w (view memory s)) one k

  -- Over a database and a codec that honour their contracts: the same puts and deletes, from the empty map and
  -- from an open file whose bucket is there and empty, leave two stores whose Get gives the same at every
  -- key, provided that the persistent store accepts them all.
  pub stores_agree :
      {D Bytes : Type 0} (driver : Driver D Bytes) (codec : Codec Task Bytes) (bucket : String)
      (d : IsDriver driver) (c : IsCodec codec) (init : D) (ws : List Write) (k : String)
      → IsOpen driver codec bucket d c init
      → ((j : String) → driver.bucket_get bucket j init ≡ none)
      → (run (bolt_task_store driver codec bucket) ws init).1 ≡ ws
      → view memory (run memory ws []).0 k
        ≡ view
            (bolt_task_store driver codec bucket)
            (run (bolt_task_store driver codec bucket) ws init).0
            k
  unfolding Tasks.get lookup
  stores_agree driver codec bucket d c init ws k open_file empty accepted =
      view-run_memory ws [] tt k
      ∙ sym (
          bolt_refines driver codec bucket d c init ws k open_file empty
          ∙ ap (λ l. replay l (λ j. none) k) accepted)
