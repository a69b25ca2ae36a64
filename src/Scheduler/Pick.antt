-- ===== src/Scheduler/Pick.antt =====
-- internal/adapters/scheduler/scheduler.go: the three Pick methods, which are one loop, and what they read.
use devops_platform.Base.{
  true, false, String, List, [], ◌∷◌, Option, none, some, Map, lookup, string_eq,
}
use mathlib.Core.Option.{get_or}
use devops_platform.Scheduler.Floats.{Float}
use devops_platform.Scheduler.Node.{Node}

module _ {F : Type 0} (f : Float F) where
  -- scores[node.Name], the zero value for a missing key
  abbrev pub score_of : Map String F → Node → F
  score_of scores n = get_or (lookup n.name scores) f.zero

  -- The loop from the second candidate on, with the best so far and its score.
  unfoldable pub pick_from : Map String F → Node → F → List Node → Node
  pick_from scores best lowest [] = best
  pick_from scores best lowest (n ∷ ns) = elim (f.lt (score_of scores n) lowest) [
    | true ↦ pick_from scores n (score_of scores n) ns
    | false ↦ pick_from scores best lowest ns
  ]

  -- RoundRobin.Pick: nil for no candidates
  unfoldable pub round_robin_pick : Map String F → List Node → Option Node
  unfolding pick_from
  round_robin_pick scores [] = none
  round_robin_pick scores (n ∷ ns) = some (pick_from scores n (score_of scores n) ns)

  -- Greedy.Pick
  unfoldable pub greedy_pick : Map String F → List Node → Option Node
  unfolding pick_from
  greedy_pick scores [] = none
  greedy_pick scores (n ∷ ns) = some (pick_from scores n (score_of scores n) ns)

  -- Epvm.Pick
  unfoldable pub epvm_pick : Map String F → List Node → Option Node
  unfolding pick_from
  epvm_pick scores [] = none
  epvm_pick scores (n ∷ ns) = some (pick_from scores n (score_of scores n) ns)
