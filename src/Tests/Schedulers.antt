-- ===== src/Tests/Schedulers.antt =====
-- The schedulers on two nodes, with numbers in place of floating-point values.
use mathlib.Core.List.{Memᴰ}
use devops_platform.Base.{
  ◌≡◌, refl, ℕ, some, [], ◌∷◌, Map, String, nat_eq, insert, ◌>>=◌, string_eq,
}
use devops_platform.Scheduler.Stats.{mem_total_kb, disk_total, usage_share}
use devops_platform.Scheduler.Node.{Node, get_stats}
use devops_platform.Scheduler.Pick.{score_of, pick_from, round_robin_pick, greedy_pick, epvm_pick}
use devops_platform.Scheduler.Costs.{
  calculate_cpu_usage, greedy_score, score_from, check_disk, usage_between, select_candidate_nodes,
}
use devops_platform.Scheduler.Candidates.{select-complete}
use devops_platform.Scheduler.Minimal.{IsLeast, pick-IsLeast}
use devops_platform.Scheduler.Usage.{greedy_picks_first}
use devops_platform.Tests.Fixtures.{
  numbers, numbers-IsOrdered, node_named, stats_idle, answers, demand,
}

abbrev scores : Map String ℕ
scores = ("a", 5) ∷ ("b", 3) ∷ []

pick-IsLeast_example :
    let b =
      pick_from numbers scores
        (node_named "a")
        (score_of numbers scores (node_named "a"))
        (node_named "b" ∷ []) in
    (round_robin_pick numbers scores (node_named "a" ∷ node_named "b" ∷ []) ≡ some b)
    × (greedy_pick numbers scores (node_named "a" ∷ node_named "b" ∷ []) ≡ some b)
    × (epvm_pick numbers scores (node_named "a" ∷ node_named "b" ∷ []) ≡ some b)
    × IsLeast numbers numbers-IsOrdered scores b (node_named "a" ∷ node_named "b" ∷ [])
    × Memᴰ b (node_named "a" ∷ node_named "b" ∷ [])
pick-IsLeast_example =
    pick-IsLeast numbers numbers-IsOrdered scores (node_named "a") (node_named "b" ∷ [])

abbrev node_after : Node
node_after = record (node_named "a") { memory = 8; disk = 100; stats = stats_idle 4 }

greedy_picks_first_example :
    greedy_pick numbers (("a", 0) ∷ []) (node_named "b" ∷ node_named "a" ∷ [])
    ≡ some (node_named "b")
unfolding greedy_score score_from calculate_cpu_usage get_stats mem_total_kb disk_total ◌>>=◌
    usage_share usage_between insert
greedy_picks_first_example =
    greedy_picks_first numbers numbers-IsOrdered ((node_named "a", answers) ∷ []) (("a", 0) ∷ [])
      (node_after ∷ []) refl refl (node_named "b") (node_named "a" ∷ [])

select-complete_example :
    Memᴰ (node_named "a") (select_candidate_nodes demand (node_named "a" ∷ []))
unfolding check_disk
select-complete_example =
    select-complete demand (node_named "a") (node_named "a" ∷ []) (Memᴰ.head refl) refl
