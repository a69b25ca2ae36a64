-- ===== src/Scheduler/Costs.antt =====
-- internal/adapters/scheduler/scheduler.go, lines 72 to 226: the candidates and the scores of Greedy and
-- Epvm. The file imports its nodes and tasks from modules that are not in the source: a node is the one
-- of internal/adapters/node/node.go, and a task is the two fields that are read.
use devops_platform.Base.{
  ℕ, ◌+◌, Bool, true, false, String, List, [], ◌∷◌, Result, ok, err, panic, bind, Exec, ◌>>◌, Map,
  insert, string_eq, add64, sub64, le_int64, div_int64,
}
use devops_platform.Scheduler.Floats.{Float}
use devops_platform.Scheduler.Stats.{CpuStat, deref, idle_of, non_idle_of, usage_share, mem_used_kb}
use devops_platform.Scheduler.Node.{Node, Response, get_stats}

-- Both fields are int64 values, by their two's complement.
pub record Demand : Type 0 where
  pub disk : ℕ
  pub memory : ℕ

unfoldable pub check_disk : Demand → ℕ → Bool
check_disk t disk_available = le_int64 t.disk disk_available

unfoldable pub select_candidate_nodes : Demand → List Node → List Node
unfolding check_disk
select_candidate_nodes t [] = []
select_candidate_nodes t (n ∷ ns) = elim (check_disk t (sub64 n.disk n.disk_allocated)) [
  | true ↦ n ∷ select_candidate_nodes t ns
  | false ↦ select_candidate_nodes t ns
]

-- The answers of the two requests that a node gets.
pub record Answers : Type 0 where
  pub first : Result Response
  pub second : Result Response

module _ {F : Type 0} (f : Float F) where
  abbrev pub calculate_load : F → F → F
  calculate_load usage capacity = f.div usage capacity

  unfoldable pub usage_between : CpuStat → CpuStat → F
  usage_between c1 c2 =
      let total =
        sub64 (add64 (idle_of c2) (non_idle_of c2)) (add64 (idle_of c1) (non_idle_of c1)) in
      usage_share f total (sub64 (idle_of c2) (idle_of c1))

  -- What a call of GetStats leaves in the node.
  abbrev pub read_stats : Result Response → Exec Node (Unit {0})
  read_stats answer n = elim (get_stats answer n) [
    | ok (n', _) ↦ (ok tt, n')
    | err e ↦ (err e, n)
    | panic ↦ (panic, n)
  ]

  -- GetStats returns the address of the node's own statistics, so both variables stand for the same
  -- ones when they are read.
  abbrev pub read_usage : Exec Node F
  unfolding usage_between
  read_usage n = (
    bind (deref n.stats.cpu_stats)
        λ stat1. bind (deref n.stats.cpu_stats) λ stat2. ok (usage_between stat1 stat2),
    n,
  )

  unfoldable pub calculate_cpu_usage : Answers → Exec Node F
  calculate_cpu_usage a = read_stats a.first >> read_stats a.second >> read_usage

  -- A panic ends the loop, an error leaves the scores as they are.
  abbrev pub scored : (F → Node → Result F) → Map String F → Result F × Node → Result (Map String F)
  scored cost scores (ok usage, n) = bind (cost usage n) λ c. ok (insert n.name c scores)
  scored cost scores (err e, n) = ok scores
  scored cost scores (panic, n) = panic

  -- The loop of both Score methods: the scores, and the nodes as GetStats leaves them.
  unfoldable pub score_from :
      (F → Node → Result F)
      → List (Node × Answers)
      → Map String F
      → Result (Map String F × List Node)
  unfolding calculate_cpu_usage
  score_from cost [] scores = ok (scores, [])
  score_from cost ((n, a) ∷ ns) scores =
      bind (scored cost scores (calculate_cpu_usage a n)) λ scores'.
        bind (score_from cost ns scores')
          λ (all, rest). ok (all, (calculate_cpu_usage a n).1 ∷ rest)

  abbrev pub greedy_cost : F → Node → Result F
  greedy_cost usage n = ok (calculate_load usage f.capacity)

  unfoldable pub greedy_score : List (Node × Answers) → Result (Map String F × List Node)
  unfolding score_from
  greedy_score ns = score_from greedy_cost ns []

  -- The body of the loop of Epvm.Score, after the usage is known.
  unfoldable pub epvm_cost : Demand → F → Node → Result F
  unfolding mem_used_kb
  epvm_cost t usage n = bind (mem_used_kb n.stats) λ used.
      let cpu_load = calculate_load usage f.capacity in
      let memory_allocated = f.add (f.of_uint64 used) (f.of_int64 n.memory_allocated) in
      let memory_percent_allocated = f.div memory_allocated (f.of_int64 n.memory) in
      let new_mem_percent =
        calculate_load (f.add memory_allocated (f.of_int64 (div_int64 t.memory 1000)))
          (f.of_int64 n.memory) in
      let jobs = f.pow f.lieb (f.div (f.of_int (n.task_count + 1)) f.max_jobs) in
      let jobs_now = f.pow f.lieb (f.div (f.of_int n.task_count) f.max_jobs) in
      let mem_cost =
        f.sub
          (f.sub (f.add (f.pow f.lieb new_mem_percent) jobs)
            (f.pow f.lieb memory_percent_allocated))
          jobs_now in
      let cpu_cost =
        f.sub (f.sub (f.add (f.pow f.lieb cpu_load) jobs) (f.pow f.lieb cpu_load)) jobs_now in
      ok (f.add mem_cost cpu_cost)

  unfoldable pub epvm_score : Demand → List (Node × Answers) → Result (Map String F × List Node)
  unfolding score_from epvm_cost
  epvm_score t ns = score_from (epvm_cost t) ns []
