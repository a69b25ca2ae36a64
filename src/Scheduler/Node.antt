-- ===== src/Scheduler/Node.antt =====
-- internal/adapters/node/node.go: a node and the refresh of its statistics. The HTTP client and the JSON
-- decoder are not under the source: their answer is an argument.
use devops_platform.Base.{
  ℕ, String, concat, Option, none, some, Result, ok, err, panic, bind, ◌==◌, nat_eq, if◌then◌else◌,
  not, ◌||◌, Bool, true, false,
}
use devops_platform.Scheduler.Stats.{Stats, mem_total_kb, disk_total}

pub record Node : Type 0 where
  pub name : String
  pub ip : String
  pub api : String
  pub memory : ℕ
  pub memory_allocated : ℕ
  pub disk : ℕ
  pub disk_allocated : ℕ
  pub stats : Stats
  pub role : String
  pub task_count : ℕ

abbrev pub zero_stats : Stats
zero_stats = record { mem_stats = none; disk_stats = none; cpu_stats = none; task_count = 0 }

unfoldable pub new_node : String → String → String → Node
new_node name api role = record {
  name = name;
  ip = "";
  api = api;
  memory = 0;
  memory_allocated = 0;
  disk = 0;
  disk_allocated = 0;
  stats = zero_stats;
  role = role;
  task_count = 0;
}

-- What a request gives: the status, and the statistics if the body decodes.
pub record Response : Type 0 where
  pub status_code : ℕ
  pub body : Option Stats

abbrev pub is_nil {ℓ} : {A : Type ℓ} → Option A → Bool
is_nil none = true
is_nil (some a) = false

refreshed : Node → Stats → Result (Node × Stats)
refreshed n s =
    if is_nil s.mem_stats || is_nil s.disk_stats
    then err (concat "error getting stats from node " n.name)
    else bind (mem_total_kb s) λ memory.
      bind (disk_total s) λ disk. ok (record n { memory = memory; disk = disk; stats = s }, s)

decoded : Node → Option Stats → Result (Node × Stats)
unfolding refreshed
decoded n none = err (concat "error decoding message while getting stats for node " n.name)
decoded n (some s) = refreshed n s

-- GetStats gives the node as it leaves it; on an error the node is as it was.
unfoldable pub get_stats : Result Response → Node → Result (Node × Stats)
unfolding decoded
get_stats answer n = elim answer [
  | ok resp ↦
      if not (resp.status_code == 200)
      then err (concat "Error retrieving stats from " (concat n.api ": <nil>"))
      else decoded n resp.body
  | err e ↦ err (concat "Unable to connect to " (concat n.api ". Permanent failure.\n"))
  | panic ↦ panic
]
