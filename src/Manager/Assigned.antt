-- ===== src/Manager/Assigned.antt =====
-- The two maps of the manager and the requests that it sends (internal/adapters/manager/manager.go).
use devops_platform.Base.{
  ℕ, ◌+◌, ◌≤◌, ◌≡◌, refl, Bool, true, false, ◌||◌, String, List, [], ◌∷◌, ◌++◌, All, Option, none,
  some, Map, lookup, insert, lookup-insert, ◌==◌, string_eq, nat_eq, if◌then◌else◌, arith,
}
use devops_platform.Task.Defs.{TaskEvent, Uuid}
use devops_platform.Manager.Defs.{Manager, Request, post, delete}
use devops_platform.Manager.Sending.{tasks_of}

abbrev pub has_id : Uuid → List Uuid → Bool
has_id id [] = false
has_id id (x ∷ xs) = x == id || has_id id xs

-- How many of the requests post an event of the task.
abbrev pub is_post : Uuid → Request → ℕ
is_post id (post w te) = if te.task.metadata.id == id then 1 else 0
is_post id (delete w t) = 0

abbrev pub posts : Uuid → List Request → ℕ
posts id [] = 0
posts id (r ∷ rs) = is_post id r + posts id rs

abbrev pub at_most : Option String → ℕ
at_most none = 0
at_most (some w) = 1

-- A post goes to the worker that its task is assigned to.
abbrev pub IsPlaced : Map Uuid String → Request → Type 0
IsPlaced assigned (post w te) = lookup te.task.metadata.id assigned ≡ some w
IsPlaced assigned (delete w t) = Unit

-- Every assigned task is in the list of its worker, only assigned tasks are posted, at most once each, and
-- to the worker that they are assigned to.
pub record IsOrderly (lists : Map String (List Uuid)) (assigned : Map Uuid String)
    (requests : List Request) : Type 0 where
  pub agree :
      (id : Uuid) (w : String) → lookup id assigned ≡ some w → has_id id (tasks_of lists w) ≡ true
  pub once : (id : Uuid) → posts id requests ≤ at_most (lookup id assigned)
  pub placed : All (IsPlaced assigned) requests

abbrev pub IsTidy : {S E : Type 0} → Manager S E → Type 0
IsTidy m = IsOrderly m.worker_task_map m.task_worker_map m.requests

posts-append : (id : Uuid) (rs qs : List Request) → posts id (rs ++ qs) ≡ posts id rs + posts id qs
posts-append id [] qs = omega arith
posts-append id (r ∷ rs) qs = omega (arith, posts-append id rs qs)

has_id-append :
    (id : Uuid) (xs ys : List Uuid) → has_id id (xs ++ ys) ≡ (has_id id xs || has_id id ys)
has_id-append id [] ys = refl
has_id-append id (x ∷ xs) ys = ground (arith, has_id-append id xs ys)

All-snoc :
    (assigned : Map Uuid String) (rs : List Request) (r : Request)
    → All (IsPlaced assigned) rs
    → IsPlaced assigned r
    → All (IsPlaced assigned) (rs ++ r ∷ [])
All-snoc assigned [] r h k = (k, tt)
All-snoc assigned (q ∷ rs) r h k = (h.0, All-snoc assigned rs r h.1 k)

-- A new assignment keeps the earlier ones.
IsPlaced-insert :
    (assigned : Map Uuid String) (id : Uuid) (w : String) (r : Request)
    → lookup id assigned ≡ none
    → IsPlaced assigned r
    → IsPlaced (insert id w assigned) r
IsPlaced-insert assigned id w (post v te) fresh h = ground (
  arith,
  lookup-insert id te.task.metadata.id w assigned,
  nat_eq.equal_iff id te.task.metadata.id,
)
IsPlaced-insert assigned id w (delete v t) fresh h = tt

All-IsPlaced-insert :
    (assigned : Map Uuid String) (id : Uuid) (w : String) (rs : List Request)
    → lookup id assigned ≡ none
    → All (IsPlaced assigned) rs
    → All (IsPlaced (insert id w assigned)) rs
All-IsPlaced-insert assigned id w [] fresh h = tt
All-IsPlaced-insert assigned id w (r ∷ rs) fresh h =
    (IsPlaced-insert assigned id w r fresh h.0, All-IsPlaced-insert assigned id w rs fresh h.1)

tasks_of-insert :
    (lists : Map String (List Uuid)) (w v : String) (ids : List Uuid)
    → tasks_of (insert w ids lists) v ≡ (if w == v then ids else tasks_of lists v)
tasks_of-insert lists w v ids = ground (arith, lookup-insert w v ids lists)

module _ {lists : Map String (List Uuid)} {assigned : Map Uuid String} {requests : List Request}
    (h : IsOrderly lists assigned requests) where
  pub delete-IsOrderly : (w t : String) → IsOrderly lists assigned (requests ++ delete w t ∷ [])
  delete-IsOrderly w t = record {
    agree = h.agree;
    once = λ id. omega (arith, h.once id, posts-append id requests (delete w t ∷ []));
    placed = All-snoc assigned requests (delete w t) h.placed tt;
  }

  module _ (id : Uuid) (w : String) (fresh : lookup id assigned ≡ none) where
    pub assign-IsOrderly :
        IsOrderly (insert w (tasks_of lists w ++ id ∷ []) lists) (insert id w assigned) requests
    assign-IsOrderly = record {
      agree = λ j v e. ground (
        arith,
        lookup-insert id j w assigned,
        nat_eq.equal_iff id j,
        tasks_of-insert lists w v (tasks_of lists w ++ id ∷ []),
        string_eq.equal_iff w v,
        has_id-append j (tasks_of lists w) (id ∷ []),
        h.agree j v,
      );
      once = λ j. ground (arith, lookup-insert id j w assigned, nat_eq.equal_iff id j, h.once j);
      placed = All-IsPlaced-insert assigned id w requests fresh h.placed;
    }

    pub post-IsOrderly :
        (te : TaskEvent)
        → te.task.metadata.id ≡ id
        → IsOrderly
            (insert w (tasks_of lists w ++ id ∷ []) lists)
            (insert id w assigned)
            (requests ++ post w te ∷ [])
    post-IsOrderly te same = record {
      agree = assign-IsOrderly.agree;
      once = λ j. ground (
        arith,
        lookup-insert id j w assigned,
        nat_eq.equal_iff id j,
        h.once j,
        posts-append j requests (post w te ∷ []),
      );
      placed =
          All-snoc (insert id w assigned) requests (post w te) assign-IsOrderly.placed (
            ground
              (arith, lookup-insert id te.task.metadata.id w assigned, nat_eq.equal_iff id id));
    }
