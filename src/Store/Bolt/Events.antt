-- ===== src/Store/Bolt/Events.antt =====
-- internal/adapters/store/store.go, lines 250 to 370: the persistent event store.
use devops_platform.Base.{
  ℕ, String, concat, List, [], ◌∷◌, length, Option, none, some, Result, ok, err, panic, bind, Bool,
  true, false,
}
use devops_platform.Task.Defs.{TaskEvent}
use devops_platform.Store.Port.{Value, Listing, Store, as_event, event, events}
use devops_platform.Store.Bolt.Driver.{Driver, Codec}

module _ {D Bytes : Type 0} (driver : Driver D Bytes) (codec : Codec TaskEvent Bytes)
    (bucket : String) where
  -- The error of CreateBucket, with its context.
  unfoldable pub create_bucket : D → Result D
  create_bucket db = elim (driver.create_bucket bucket db) [
    | ok db' ↦ ok db'
    | err e ↦ err (concat "create bucket " (concat bucket (concat ": " e)))
    | panic ↦ panic
  ]

  -- A method of the nil bucket of a missing name panics.
  abbrev in_bucket : {A : Type 0} → Bool → Result A → Result A
  in_bucket true r = r
  in_bucket false r = panic

  -- The bucket is fetched, the value asserted and marshalled, and the bytes are written.
  unfoldable pub put : String → Value → D → Result D
  put k value db =
      bind (bind (as_event value) codec.marshal)
        λ buf. in_bucket (driver.has_bucket bucket db) (driver.bucket_put bucket k buf db)

  abbrev decode : String → Option Bytes → Result Value
  decode k none = err (concat "event " (concat k " not found"))
  decode k (some buf) = bind (codec.unmarshal buf) λ a. ok (event a)

  unfoldable pub get : String → D → Result Value
  get k db =
      bind (driver.view db)
        λ _. in_bucket (driver.has_bucket bucket db) (decode k (driver.bucket_get bucket k db))

  -- An entry that does not decode stops ForEach, whose error List drops.
  unfoldable pub decoded : List (String × Bytes) → List TaskEvent
  decoded [] = []
  decoded ((k, buf) ∷ entries) =
      let rest = decoded entries in elim (codec.unmarshal buf) [ ok a ↦ a ∷ rest | _ ↦ [] ]

  unfoldable pub list : D → Result Listing
  unfolding decoded
  list db = bind (driver.view db) λ _.
      in_bucket (driver.has_bucket bucket db) (ok (events (decoded (driver.for_each bucket db))))

  unfoldable pub count : D → Result ℕ
  count db =
      bind (driver.view db)
        λ _. in_bucket (driver.has_bucket bucket db) (ok (length (driver.for_each bucket db)))

  unfoldable pub delete : String → D → Result D
  delete k db = in_bucket (driver.has_bucket bucket db) (elim (driver.bucket_delete bucket k db) [
    | ok db' ↦ ok db'
    | err e ↦ err (concat "unable to delete event " k)
    | panic ↦ panic
  ])

  abbrev pub bolt_event_store : Store D
  bolt_event_store = record {
    put = put;
    get = get;
    list = list;
    count = count;
    delete = delete;
    mutate = λ k t db. db;
  }

-- The constructor: on a file that opens, the bucket is created, or used if that fails.
unfoldable pub new_event_store :
    {D Bytes : Type 0}
    → Driver D Bytes
    → Codec TaskEvent Bytes
    → String
    → String
    → Result D
    → Result D
unfolding create_bucket
new_event_store driver codec file bucket opened = elim opened [
  | ok db ↦ elim (create_bucket driver codec bucket db) [
    | ok db' ↦ ok db'
    | err e ↦ ok db
    | panic ↦ panic
  ]
  | err e ↦ err (concat "unable to open " file)
  | panic ↦ panic
]
