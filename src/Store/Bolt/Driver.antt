-- ===== src/Store/Bolt/Driver.antt =====
-- What the persistent stores use of github.com/boltdb/bolt and encoding/json, as interfaces, and the
-- documented behaviour that the laws of the stores rest on.
use devops_platform.Base.{
  ◌≡◌, Bool, String, List, Option, none, some, Result, ok, ◌==◌, string_eq, if◌then◌else◌,
}

-- A database over states `D`. `view` is the error of a read transaction; the mutating methods are
-- one read-write transaction each, which is rolled back on an error.
pub record Driver (D Bytes : Type 0) : Type 0 where
  pub view : D → Result (Unit {0})
  pub create_bucket : String → D → Result D
  pub has_bucket : String → D → Bool
  pub bucket_put : String → String → Bytes → D → Result D
  pub bucket_get : String → String → D → Option Bytes
  pub bucket_delete : String → String → D → Result D
  pub for_each : String → D → List (String × Bytes)

-- json.Marshal and json.Unmarshal at one type.
pub record Codec (A Bytes : Type 0) : Type 0 where
  pub marshal : A → Result Bytes
  pub unmarshal : Bytes → Result A

-- What was marshalled is unmarshalled to the same value.
pub record IsCodec {A Bytes : Type 0} (c : Codec A Bytes) : Type 0 where
  pub unmarshal-marshal : (a : A) {b : Bytes} → c.marshal a ≡ ok b → c.unmarshal b ≡ ok a

-- A committed write is read back, changes no other key and no bucket, and leaves the file open.
pub record IsDriver {D Bytes : Type 0} (d : Driver D Bytes) : Type 0 where
  pub put-get :
      (bucket k j : String) (v : Bytes) (s : D) {s' : D}
      → d.bucket_put bucket k v s ≡ ok s'
      → d.bucket_get bucket j s' ≡ (if k == j then some v else d.bucket_get bucket j s)
  pub delete-get :
      (bucket k j : String) (s : D) {s' : D}
      → d.bucket_delete bucket k s ≡ ok s'
      → d.bucket_get bucket j s' ≡ (if k == j then none else d.bucket_get bucket j s)
  pub put-has_bucket :
      (bucket other k : String) (v : Bytes) (s : D) {s' : D}
      → d.bucket_put bucket k v s ≡ ok s'
      → d.has_bucket other s' ≡ d.has_bucket other s
  pub delete-has_bucket :
      (bucket other k : String) (s : D) {s' : D}
      → d.bucket_delete bucket k s ≡ ok s'
      → d.has_bucket other s' ≡ d.has_bucket other s
  pub put-view :
      (bucket k : String) (v : Bytes) (s : D) {s' : D}
      → d.bucket_put bucket k v s ≡ ok s'
      → (d.view s ≡ ok tt) × (d.view s' ≡ ok tt)
  pub delete-view :
      (bucket k : String) (s : D) {s' : D}
      → d.bucket_delete bucket k s ≡ ok s'
      → (d.view s ≡ ok tt) × (d.view s' ≡ ok tt)
