-- ===== src/Store/Bolt/Laws.antt =====
-- The persistent task store (internal/adapters/store/store.go, lines 111 to 241) and the laws of the port.
use devops_platform.Base.{
  ◌≡◌, true, String, none, ok, err, ◌==◌, string_eq, if◌then◌else◌, arith, beq_refl, concat, ◌∙◌,
}
use devops_platform.Task.Defs.{Task}
use devops_platform.Store.Port.{IsTaskStore, task}
use devops_platform.Store.Bolt.Driver.{Driver, Codec, IsDriver, IsCodec}
use devops_platform.Store.Bolt.Tasks.{put, get, delete, bolt_task_store}

module _ {D Bytes : Type 0} (driver : Driver D Bytes) (codec : Codec Task Bytes) (bucket : String)
    (d : IsDriver driver) (c : IsCodec codec) where
  -- The file is open, and the bucket is there.
  abbrev pub IsOpen : D → Type 0
  IsOpen s = (driver.view s ≡ ok tt) × (driver.has_bucket bucket s ≡ true)

  put_parts :
      (k : String) (t : Task) (s : D) {s' : D}
      → put driver codec bucket k (task t) s ≡ ok s'
      → (buf : Bytes) × (codec.marshal t ≡ ok buf)
        × (driver.has_bucket bucket s ≡ true)
        × (driver.bucket_put bucket k buf s ≡ ok s')
  unfolding put
  put_parts k t s h = ground arith

  put-IsOpen :
      (k : String) (t : Task) (s : D) {s' : D}
      → IsOpen s
      → put driver codec bucket k (task t) s ≡ ok s'
      → IsOpen s'
  put-IsOpen k t s o h =
      let (buf, m, b, w) = put_parts k t s h in
      ((d.put-view bucket k buf s w).1, d.put-has_bucket bucket bucket k buf s w ∙ b)

  -- Over a database and a codec that honour their contracts, where the file is open and has the
  -- bucket, a put of a task that succeeds makes its key give the task, and leaves what every other key
  -- gives.
  pub bolt_get-put :
      (k j : String) (t : Task) (s : D) {s' : D}
      → IsOpen s
      → put driver codec bucket k (task t) s ≡ ok s'
      → get driver codec bucket j s' ≡ (if k == j then ok (task t) else get driver codec bucket j s)
  unfolding get
  bolt_get-put k j t s o h =
      let (buf, m, b, w) = put_parts k t s h in
      ground (arith, put-IsOpen k t s o h, d.put-get bucket k j buf s w, c.unmarshal-marshal t m)

  delete_parts :
      (k : String) (s : D) {s' : D}
      → delete driver codec bucket k s ≡ ok s'
      → (driver.has_bucket bucket s ≡ true) × (driver.bucket_delete bucket k s ≡ ok s')
  unfolding delete
  delete_parts k s h = ground arith

  delete-IsOpen :
      (k : String) (s : D) {s' : D} → IsOpen s → delete driver codec bucket k s ≡ ok s' → IsOpen s'
  delete-IsOpen k s o h =
      let (b, w) = delete_parts k s h in
      ((d.delete-view bucket k s w).1, d.delete-has_bucket bucket bucket k s w ∙ b)

  -- Over a database and a codec that honour their contracts, where the file is open and has the
  -- bucket, a delete that succeeds makes its key missing, and leaves what every other key gives.
  pub bolt_get-delete :
      (k j : String) (s : D) {s' : D}
      → IsOpen s
      → delete driver codec bucket k s ≡ ok s'
      → get driver codec bucket j s' ≡ (
          if k == j
          then err (concat "task " (concat j " not found"))
          else get driver codec bucket j s)
  unfolding get
  bolt_get-delete k j s o h =
      let (b, w) = delete_parts k s h in
      ground (arith, delete-IsOpen k s o h, d.delete-get bucket k j s w)

  -- Over a database that honours the driver's contract, the persistent task store meets the laws of
  -- a task store from every open file on whose bucket is there and has no entry.
  pub bolt_laws :
      (init : D)
      → IsOpen init
      → ((k : String) → driver.bucket_get bucket k init ≡ none)
      → IsTaskStore (bolt_task_store driver codec bucket) IsOpen init
  unfolding get
  bolt_laws init open_file fresh = record {
    init-IsSound = open_file;
    get-init = λ k. (concat "task " (concat k " not found"), ground (arith, fresh k));
    put-IsSound = put-IsOpen;
    get-put = bolt_get-put;
    delete-IsSound = delete-IsOpen;
    get-delete_self = λ k s o h. (
      concat "task " (concat k " not found"),
      ground (arith, bolt_get-delete k k s o h, beq_refl k),
    );
    get-delete_ne = λ k j s o h ne. ground (arith, bolt_get-delete k j s o h);
  }
