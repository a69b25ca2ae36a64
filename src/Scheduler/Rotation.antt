-- ===== src/Scheduler/Rotation.antt =====
-- internal/adapters/scheduler/scheduler.go, lines 22 to 72: the turns that RoundRobin gives.
use devops_platform.Base.{
  ℕ, zero, suc, ◌+◌, ◌<◌, ◌≡◌, refl, false, String, List, [], ◌∷◌, length, get_elem?, some, Map,
  insert, lookup, lookup-insert, string_eq, ◌==◌, nat_eq, beq_refl, if◌then◌else◌, arith,
}
use devops_platform.Scheduler.Floats.{Float, IsOrdered}
use devops_platform.Scheduler.Node.{Node}
use devops_platform.Scheduler.Pick.{score_of, pick_from, round_robin_pick}
use devops_platform.Scheduler.RoundRobin.{RoundRobin, next_worker, turn_scores, score}

-- No node of the list has the name.
abbrev pub LacksName : String → List Node → Type 0
LacksName k [] = Unit
LacksName k (n ∷ ns) = ((n.name == k) ≡ false) × LacksName k ns

-- The scores are kept by name.
abbrev pub HasDistinctNames : List Node → Type 0
HasDistinctNames [] = Unit
HasDistinctNames (n ∷ ns) = LacksName n.name ns × HasDistinctNames ns

next_worker-bound : (count last : ℕ) → 0 < count → next_worker count last < count
unfolding next_worker
next_worker-bound count last h = ground arith

module _ {F : Type 0} (f : Float F) (o : IsOrdered f) where
  -- The nodes from index `idx` on have the scores that Score gives.
  abbrev Scored : Map String F → ℕ → ℕ → List Node → Type 0
  Scored scores w idx [] = Unit
  Scored scores w idx (n ∷ ns) =
      (score_of f scores n ≡ (if idx == w then f.tenth else f.one)) × Scored scores w (idx + 1) ns

  turn_scores_other :
      (w idx : ℕ) (k : String) (ns : List Node) (scores : Map String F)
      → LacksName k ns
      → lookup k (turn_scores f w idx ns scores) ≡ lookup k scores
  unfolding turn_scores
  turn_scores_other w idx k [] scores h = refl
  turn_scores_other w idx k (n ∷ ns) scores h =
      let s = if idx == w then f.tenth else f.one in
      ground (
        arith,
        turn_scores_other w (idx + 1) k ns (insert n.name s scores),
        lookup-insert n.name k s scores,
      )

  turn_scores-Scored :
      (w idx : ℕ) (ns : List Node) (scores : Map String F)
      → HasDistinctNames ns
      → Scored (turn_scores f w idx ns scores) w idx ns
  unfolding turn_scores
  turn_scores-Scored w idx [] scores h = tt
  turn_scores-Scored w idx (n ∷ ns) scores h =
      let s = if idx == w then f.tenth else f.one in
      let scores' = insert n.name s scores in
      (
        ground (
          arith,
          turn_scores_other w (idx + 1) n.name ns scores',
          lookup-insert n.name n.name s scores,
          beq_refl n.name,
        ),
        turn_scores-Scored w (idx + 1) ns scores' h.1,
      )

  not-one-below : f.lt f.one f.tenth ≡ false
  not-one-below = ground (arith, o.lt_trans f.one f.tenth f.one, o.lt_irrefl f.one, o.tenth-lt-one)

  -- After the node whose turn it is, nothing changes.
  pick_after :
      (scores : Map String F) (w idx : ℕ) (best : Node) (ns : List Node)
      → w < idx
      → Scored scores w idx ns
      → pick_from f scores best f.tenth ns ≡ best
  unfolding pick_from
  pick_after scores w idx best [] h s = refl
  pick_after scores w idx best (n ∷ ns) h s =
      ground (arith, not-one-below, pick_after scores w (idx + 1) best ns)

  pick_before :
      (scores : Map String F) (k idx : ℕ) (best : Node) (ns : List Node)
      → k < length ns
      → Scored scores (idx + k) idx ns
      → some (pick_from f scores best f.one ns) ≡ get_elem? ns k
  unfolding pick_from
  pick_before scores k idx best [] h s = ground arith
  pick_before scores zero idx best (n ∷ ns) h s =
      ground (arith, o.tenth-lt-one, pick_after scores (idx + 0) (idx + 1) n ns)
  pick_before scores (suc k) idx best (n ∷ ns) h s =
      ground (arith, o.lt_irrefl f.one, pick_before scores k (idx + 1) best ns)

  pick-Scored :
      (scores : Map String F) (w : ℕ) (n : Node) (ns : List Node)
      → w < length (n ∷ ns)
      → Scored scores w 0 (n ∷ ns)
      → some (pick_from f scores n (score_of f scores n) ns) ≡ get_elem? (n ∷ ns) w
  pick-Scored scores zero n ns h s = ground (arith, pick_after scores 0 1 n ns)
  pick-Scored scores (suc k) n ns h s = ground (arith, pick_before scores k 1 n ns)

  -- Where `<` is a strict order and the nodes have different names, the node that RoundRobin scores
  -- and picks is the one after the last one, or the first one after the end, and it becomes the last
  -- one.
  pub round_robin_lem :
      (r : RoundRobin) (nodes : List Node)
      → HasDistinctNames nodes
      → let w = next_worker (length nodes) r.last_worker in
        (round_robin_pick f (score f r nodes).0 nodes ≡ get_elem? nodes w)
        × ((score f r nodes).1.last_worker ≡ w)
  unfolding score round_robin_pick
  round_robin_lem r [] h = (refl, refl)
  round_robin_lem r (n ∷ ns) h =
      let w = next_worker (length (n ∷ ns)) r.last_worker in
      (
        pick-Scored (turn_scores f w 0 (n ∷ ns) []) w n ns
            (next_worker-bound (length (n ∷ ns)) r.last_worker (omega arith))
            (turn_scores-Scored w 0 (n ∷ ns) [] h),
        refl,
      )
