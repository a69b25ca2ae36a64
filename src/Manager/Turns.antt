-- ===== src/Manager/Turns.antt =====
-- The turns that SelectWorker of internal/adapters/manager/manager.go gives to the workers.
use native.Mathlib.Nat.{mod-lt, mod-add-mod}
use devops_platform.Base.{
  ℕ, zero, suc, ◌+◌, ◌%◌, ◌<◌, ◌≡◌, refl, ◌∙◌, ap, String, List, [], ◌∷◌, length, get_elem?, All,
  beq_refl, some, arith, Result, ok, nat_eq, string_eq,
}
use devops_platform.Task.Defs.{Task, Uuid}
use devops_platform.Scheduler.Floats.{Float, IsOrdered}
use devops_platform.Scheduler.Node.{Node}
use devops_platform.Scheduler.Costs.{Demand, Answers}
use devops_platform.Scheduler.Pick.{round_robin_pick}
use devops_platform.Scheduler.RoundRobin.{RoundRobin, score, next_worker}
use devops_platform.Scheduler.Rotation.{HasDistinctNames, LacksName, round_robin_lem}
use devops_platform.Manager.Defs.{Manager, round_robin}
use devops_platform.Manager.Selection.{
  Chosen, choose, chosen, select_worker, write_node, write_nodes,
}

next_worker_mod : (n l : ℕ) → l < n → next_worker n l ≡ (l + 1) % n
unfolding next_worker
next_worker_mod n l h = grind arith

get_elem?-bound : (ns : List Node) (i : ℕ) → i < length ns → (n : Node) × (get_elem? ns i ≡ some n)
get_elem?-bound [] i h = absurd (omega arith)
get_elem?-bound (n ∷ ns) zero h = (n, refl)
get_elem?-bound (n ∷ ns) (suc i) h = get_elem?-bound ns i (omega arith)

-- Writing each of these nodes back changes nothing.
abbrev Fixes : List Node → List Node → Type 0
Fixes nodes = All λ n. write_node n nodes ≡ nodes

Fixes-tail : (m : Node) (ms ns : List Node) → LacksName m.name ns → Fixes ms ns → Fixes (m ∷ ms) ns
unfolding write_node
Fixes-tail m ms [] l h = tt
Fixes-tail m ms (n ∷ ns) l h = (
  ground (arith, string_eq.equal_iff m.name n.name, string_eq.equal_iff n.name m.name, h.0),
  Fixes-tail m ms ns l.1 h.1,
)

Fixes-self : (ns : List Node) → HasDistinctNames ns → Fixes ns ns
unfolding write_node
Fixes-self [] h = tt
Fixes-self (n ∷ ns) h =
    (ground (arith, beq_refl n.name), Fixes-tail n ns ns h.0 (Fixes-self ns h.1))

write_nodes-Fixes : (nodes ns : List Node) → Fixes nodes ns → write_nodes ns nodes ≡ nodes
unfolding write_nodes
write_nodes-Fixes nodes [] h = refl
write_nodes-Fixes nodes (n ∷ ns) h = rw (h.0) (write_nodes-Fixes nodes ns h.1)

module _ {S E F : Type 0} (f : Float F) (o : IsOrdered f) (demand : Task → Demand)
    (answers : Node → Answers) (id_string : Uuid → String) where
  -- A round-robin manager over these nodes, whose last turn was that of the node at `last`.
  abbrev pub turned : List Node → ℕ → Manager S E → Manager S E
  turned nodes last m = record m {
    worker_nodes = nodes;
    scheduler = round_robin (record { name = "roundrobin"; last_worker = last });
  }

  chosen-some :
      (m : Manager S E) (c : Chosen) (n : Node)
      → c.node ≡ some n
      → chosen f demand answers id_string m (ok c)
        ≡ (ok n, record m { scheduler = c.scheduler; worker_nodes = c.nodes })
  chosen-some m c n e = rw e refl

  select_turn :
      (t : Task) (m : Manager S E) (nodes : List Node) (last : ℕ) (n : Node)
      → HasDistinctNames nodes
      → last < length nodes
      → get_elem? nodes ((last + 1) % length nodes) ≡ some n
      → select_worker f demand answers id_string t (turned nodes last m)
        ≡ (ok n, turned nodes ((last + 1) % length nodes) m)
  unfolding select_worker choose score
  select_turn t m [] last n d b at_n = absurd (omega arith)
  select_turn t m (x ∷ xs) last n d b at_n =
      let r : RoundRobin = record { name = "roundrobin"; last_worker = last } in
      let nodes : List Node = x ∷ xs in
      let next = next_worker_mod (length nodes) last b in
      chosen-some (turned nodes last m)
        (record {
          node = round_robin_pick f (score f r nodes).0 nodes;
          scheduler = round_robin (score f r nodes).1;
          nodes = write_nodes nodes nodes;
        })
        n ((round_robin_lem f o r nodes d).0 ∙ ap (get_elem? nodes) next ∙ at_n)
      ∙ ap fixed (write_nodes-Fixes nodes nodes (Fixes-self nodes d))
      ∙ ap reached next
    where
      fixed : List Node → Result Node × Manager S E
      fixed ns = (
        ok n,
        record m {
          worker_nodes = ns;
          scheduler =
              round_robin (score f (record { name = "roundrobin"; last_worker = last }) (x ∷ xs)).1;
        },
      )

      reached : ℕ → Result Node × Manager S E
      reached k = (ok n, turned (x ∷ xs) k m)

  -- The manager after a selection for each of the tasks.
  abbrev pub after : List Task → Manager S E → Manager S E
  after [] m = m
  after (t ∷ ts) m = after ts (select_worker f demand answers id_string t m).1

  -- Where `<` is a strict order, a round-robin manager over nodes with different names, whose last turn
  -- was at a place in their list, selects them in turn: after any number of selections the next one is the
  -- node so many places on, round the list.
  pub select_worker_turns :
      (ts : List Task) (t : Task) (m : Manager S E) (nodes : List Node) (last : ℕ) (n : Node)
      → HasDistinctNames nodes
      → last < length nodes
      → get_elem? nodes ((last + (length ts + 1)) % length nodes) ≡ some n
      → (select_worker f demand answers id_string t (after ts (turned nodes last m))).0 ≡ ok n
  select_worker_turns [] t m nodes last n d b at_n =
      ap (λ r. r.0) (select_turn t m nodes last n d b at_n)
  select_worker_turns (u ∷ us) t m nodes last n d b at_n =
      let count = length nodes in
      let next : ℕ = (last + 1) % count in
      let within : next < count = mod-lt (last + 1) (omega arith) in
      let (n', at_n') = get_elem?-bound nodes next within in
      let same : (next + (length us + 1)) % count ≡ (last + (suc (length us) + 1)) % count =
        mod-add-mod (last + 1) count (length us + 1) ∙ ap (λ k. k % count) (omega arith) in
      rw (select_turn u m nodes last n' d b at_n')
        (select_worker_turns us t m nodes next n d within (ap (get_elem? nodes) same ∙ at_n))
