-- ===== src/Scheduler/Candidates.antt =====
-- internal/adapters/scheduler/scheduler.go, lines 171 to 186: which nodes are candidates.
use mathlib.Core.List.{Memᴰ}
use devops_platform.Base.{
  ◌≡◌, refl, sym, ap, ◌∙◌, All, Bool, true, false, List, [], ◌∷◌, sub64, arith,
}
use devops_platform.Scheduler.Node.{Node}
use devops_platform.Scheduler.Costs.{Demand, check_disk, select_candidate_nodes}

abbrev pub has_room : Demand → Node → Bool
has_room t n = check_disk t (sub64 n.disk n.disk_allocated)

kept :
    (b : Bool) (n m : Node) (ns : List Node)
    → Memᴰ n ns
    → Memᴰ n (elim b [ true ↦ m ∷ ns | false ↦ ns ])
kept true n m ns h = Memᴰ.tail h
kept false n m ns h = h

first :
    (b : Bool) (n m : Node) (ns : List Node)
    → n ≡ m
    → b ≡ true
    → Memᴰ n (elim b [ true ↦ m ∷ ns | false ↦ ns ])
first true n m ns same room = Memᴰ.head same
first false n m ns same room = ground arith

-- Every node that has room for the task on its disk is a candidate.
pub select-complete :
    (t : Demand) (n : Node) (ns : List Node)
    → Memᴰ n ns
    → has_room t n ≡ true
    → Memᴰ n (select_candidate_nodes t ns)
unfolding select_candidate_nodes
select-complete t n [] h room = elim h [ ]
select-complete t n (m ∷ ns) (Memᴰ.head same) room =
    first (has_room t m) n m (select_candidate_nodes t ns) same (ap (has_room t) (sym same) ∙ room)
select-complete t n (m ∷ ns) (Memᴰ.tail h) room =
    kept (has_room t m) n m (select_candidate_nodes t ns) (select-complete t n ns h room)

-- Every candidate has room for the task on its disk.
pub select_sound :
    (t : Demand) (ns : List Node) → All (λ n. has_room t n ≡ true) (select_candidate_nodes t ns)
unfolding select_candidate_nodes
select_sound t [] = tt
select_sound t (m ∷ ns) = by_test (has_room t m) refl (select_sound t ns)
  where
    by_test :
        (b : Bool)
        → has_room t m ≡ b
        → All (λ n. has_room t n ≡ true) (select_candidate_nodes t ns)
        → All
            (λ n. has_room t n ≡ true)
            (elim b [
              | true ↦ m ∷ select_candidate_nodes t ns
              | false ↦ select_candidate_nodes t ns
            ])
    by_test true room rest = (room, rest)
    by_test false room rest = rest
