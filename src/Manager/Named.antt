-- ===== src/Manager/Named.antt =====
-- The names of the nodes that SelectWorker of internal/adapters/manager/manager.go chooses and leaves: those of
-- the manager's nodes.
use devops_platform.Base.{
  ◌≡◌, refl, Bool-cases, inl, inr, String, List, [], ◌∷◌, Option, none, some, Map, ◌==◌, string_eq,
  nat_eq, Result, ok, err, panic,
}
use devops_platform.Task.Defs.{Task}
use devops_platform.Task.State.{state_eq}
use devops_platform.Scheduler.Floats.{Float}
use devops_platform.Scheduler.Node.{Node}
use devops_platform.Scheduler.Costs.{
  Demand, Answers, greedy_score, epvm_score, greedy_cost, epvm_cost,
}
use devops_platform.Scheduler.Pick.{round_robin_pick, greedy_pick, epvm_pick}
use devops_platform.Scheduler.RoundRobin.{score}
use devops_platform.Scheduler.Names.{Named, Named-pick_from, Named-score_from, Named-select}
use devops_platform.Manager.Defs.{round_robin, greedy, epvm, Scheduler}
use devops_platform.Manager.Selection.{
  write_node, write_nodes, Chosen, picked, choose, candidates_of,
}

module _ (P : String → Type 0) where
  pub Named-write_node :
      (n : Node) (ns : List Node) → P n.name → Named P ns → Named P (write_node n ns)
  unfolding write_node
  Named-write_node n [] p h = tt
  Named-write_node n (m ∷ ms) p h = elim (Bool-cases (m.name == n.name)) [
    | inl b ↦ rw b (p, h.1)
    | inr b ↦ rw b (h.0, Named-write_node n ms p h.1)
  ]

  Named-write_nodes :
      (ns nodes : List Node) → Named P ns → Named P nodes → Named P (write_nodes ns nodes)
  unfolding write_nodes
  Named-write_nodes [] nodes k h = h
  Named-write_nodes (n ∷ ns) nodes k h =
      Named-write_nodes ns (write_node n nodes) k.1 (Named-write_node n nodes k.0 h)

  -- What a Pick gives.
  abbrev pub HasName : Option Node → Type 0
  HasName none = Unit
  HasName (some n) = P n.name

  module _ {F : Type 0} (f : Float F) (demand : Task → Demand) (answers : Node → Answers) where
    HasName-round_robin :
        (scores : Map String F) (ns : List Node)
        → Named P ns
        → HasName (round_robin_pick f scores ns)
    unfolding round_robin_pick
    HasName-round_robin scores [] h = tt
    HasName-round_robin scores (n ∷ ns) h = Named-pick_from f P scores n _ ns h.0 h.1

    HasName-greedy :
        (scores : Map String F) (ns : List Node) → Named P ns → HasName (greedy_pick f scores ns)
    unfolding greedy_pick
    HasName-greedy scores [] h = tt
    HasName-greedy scores (n ∷ ns) h = Named-pick_from f P scores n _ ns h.0 h.1

    HasName-epvm :
        (scores : Map String F) (ns : List Node) → Named P ns → HasName (epvm_pick f scores ns)
    unfolding epvm_pick
    HasName-epvm scores [] h = tt
    HasName-epvm scores (n ∷ ns) h = Named-pick_from f P scores n _ ns h.0 h.1

    abbrev pub IsChosen : Result Chosen → Type 0
    IsChosen (ok c) = HasName c.node × Named P c.nodes
    IsChosen (err e) = Unit
    IsChosen panic = Unit

    picked-IsChosen :
        (s : Scheduler) (pick : Map String F → List Node → Option Node) (nodes : List Node)
        (r : Result (Map String F × List Node))
        → Named P nodes
        → ((scores : Map String F) (ns : List Node) → Named P ns → HasName (pick scores ns))
        → ((scores : Map String F) (ns : List Node) → r ≡ ok (scores, ns) → Named P ns)
        → IsChosen (picked f demand answers s pick nodes r)
    unfolding write_nodes
    picked-IsChosen s pick nodes (ok (scores, ns)) h k c =
        (k scores ns (c scores ns refl), Named-write_nodes ns nodes (c scores ns refl) h)
    picked-IsChosen s pick nodes (err e) h k c = tt
    picked-IsChosen s pick nodes panic h k c = tt

    pub choose-IsChosen :
        (t : Task) (s : Scheduler) (nodes ns : List Node)
        → Named P nodes
        → Named P ns
        → IsChosen (choose f demand answers t s nodes ns)
    unfolding choose greedy_score epvm_score
    choose-IsChosen t (round_robin r) nodes ns h k =
        (HasName-round_robin (score f r ns).0 ns k, Named-write_nodes ns nodes k h)
    choose-IsChosen t greedy nodes ns h k =
        picked-IsChosen greedy (greedy_pick f) nodes _ h HasName-greedy
          (Named-score_from f P (greedy_cost f) answers ns [] k)
    choose-IsChosen t epvm nodes ns h k =
        picked-IsChosen epvm (epvm_pick f) nodes _ h HasName-epvm
          (Named-score_from f P (epvm_cost f (demand t)) answers ns [] k)

    pub candidates-Named :
        (t : Task) (s : Scheduler) (nodes : List Node)
        → Named P nodes
        → Named P (candidates_of f demand answers t s nodes)
    candidates-Named t (round_robin r) nodes h = h
    candidates-Named t greedy nodes h = Named-select P (demand t) nodes h
    candidates-Named t epvm nodes h = Named-select P (demand t) nodes h
