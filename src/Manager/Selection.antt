-- ===== src/Manager/Selection.antt =====
-- internal/adapters/manager/manager.go, lines 95 to 109: SelectWorker.
use devops_platform.Base.{
  String, concat, List, [], ◌∷◌, map, Option, none, some, Map, ◌==◌, string_eq, if◌then◌else◌,
  Result, ok, err, panic, Exec,
}
use devops_platform.Task.Defs.{Task, Uuid}
use devops_platform.Scheduler.Floats.{Float}
use devops_platform.Scheduler.Node.{Node}
use devops_platform.Scheduler.Pick.{round_robin_pick, greedy_pick, epvm_pick}
use devops_platform.Scheduler.RoundRobin
use devops_platform.Scheduler.RoundRobin.{RoundRobin, score}
use devops_platform.Scheduler.Costs.{
  Demand, Answers, select_candidate_nodes, greedy_score, epvm_score,
}
use devops_platform.Manager.Defs.{Manager, Scheduler, round_robin, greedy, epvm}

-- The nodes are pointers: what a node becomes is seen wherever it stands.
unfoldable pub write_node : Node → List Node → List Node
write_node n [] = []
write_node n (m ∷ ms) = if m.name == n.name then n ∷ ms else m ∷ write_node n ms

unfoldable pub write_nodes : List Node → List Node → List Node
unfolding write_node
write_nodes [] nodes = nodes
write_nodes (n ∷ ns) nodes = write_nodes ns (write_node n nodes)

-- What SelectWorker reads and writes: the scheduler and the nodes.
pub record Chosen : Type 0 where
  pub node : Option Node
  pub scheduler : Scheduler
  pub nodes : List Node

module _ {F : Type 0} (f : Float F) (demand : Task → Demand) (answers : Node → Answers) where
  -- The candidates with what they answer to GetStats.
  abbrev pub asked : List Node → List (Node × Answers)
  asked = map λ n. (n, answers n)

  -- Score and Pick, over at least one candidate.
  abbrev pub picked :
      Scheduler
      → (Map String F → List Node → Option Node)
      → List Node
      → Result (Map String F × List Node)
      → Result Chosen
  picked s pick nodes (ok (scores, candidates)) = ok (record {
    node = pick scores candidates;
    scheduler = s;
    nodes = write_nodes candidates nodes;
  })
  picked s pick nodes (err e) = err e
  picked s pick nodes panic = panic

  unfoldable pub choose : Task → Scheduler → List Node → List Node → Result Chosen
  unfolding write_nodes
  choose t (round_robin r) nodes candidates =
      let (scores, r') = score f r candidates in
      picked (round_robin r') (round_robin_pick f) nodes (ok (scores, candidates))
  choose t greedy nodes candidates =
      picked greedy (greedy_pick f) nodes (greedy_score f (asked candidates))
  choose t epvm nodes candidates =
      picked epvm (epvm_pick f) nodes (epvm_score f (demand t) (asked candidates))

  abbrev pub candidates_of : Task → Scheduler → List Node → List Node
  candidates_of t (round_robin r) nodes = RoundRobin.select_candidate_nodes nodes
  candidates_of t greedy nodes = select_candidate_nodes (demand t) nodes
  candidates_of t epvm nodes = select_candidate_nodes (demand t) nodes

  module _ {S E : Type 0} (id_string : Uuid → String) where
    abbrev pub chosen : Manager S E → Result Chosen → Result Node × Manager S E
    chosen m (ok c) = elim c.node [
      | some n ↦ (ok n, record m { scheduler = c.scheduler; worker_nodes = c.nodes })
      | none ↦ (panic, m)
    ]
    chosen m (err e) = (err e, m)
    chosen m panic = (panic, m)

    abbrev pub select_from : Task → Manager S E → List Node → Result Node × Manager S E
    select_from t m [] = (
      err (
          concat "No available candidates match resource request for task "
            (id_string t.metadata.id)),
      m,
    )
    select_from t m (n ∷ ns) = chosen m (choose t m.scheduler m.worker_nodes (n ∷ ns))

    unfoldable pub select_worker : Task → Exec (Manager S E) Node
    unfolding choose
    select_worker t m = select_from t m (candidates_of t m.scheduler m.worker_nodes)
