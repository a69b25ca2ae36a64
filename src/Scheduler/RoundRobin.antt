-- ===== src/Scheduler/RoundRobin.antt =====
-- internal/adapters/scheduler/scheduler.go, lines 22 to 53: the round-robin scheduler.
use devops_platform.Base.{
  ℕ, ◌+◌, String, List, [], ◌∷◌, length, Map, insert, string_eq, ltb, ◌==◌, nat_eq, if◌then◌else◌,
}
use devops_platform.Scheduler.Floats.{Float}
use devops_platform.Scheduler.Node.{Node}

pub record RoundRobin : Type 0 where
  pub name : String
  pub last_worker : ℕ

-- The worker whose turn it is among `count` nodes.
unfoldable pub next_worker : ℕ → ℕ → ℕ
next_worker count last_worker = if ltb (last_worker + 1) count then last_worker + 1 else 0

-- Every node is a candidate.
abbrev pub select_candidate_nodes : List Node → List Node
select_candidate_nodes nodes = nodes

module _ {F : Type 0} (f : Float F) where
  -- The loop of Score from index `idx` on.
  unfoldable pub turn_scores : ℕ → ℕ → List Node → Map String F → Map String F
  turn_scores new_worker idx [] scores = scores
  turn_scores new_worker idx (n ∷ ns) scores =
      turn_scores new_worker (idx + 1) ns
        (insert n.name (if idx == new_worker then f.tenth else f.one) scores)

  unfoldable pub score : RoundRobin → List Node → Map String F × RoundRobin
  unfolding next_worker turn_scores
  score r nodes =
      let new_worker = next_worker (length nodes) r.last_worker in
      (turn_scores new_worker 0 nodes [], record r { last_worker = new_worker })
