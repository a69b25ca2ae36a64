-- ===== src/Scheduler/Usage.antt =====
-- internal/adapters/scheduler/scheduler.go: what calculateCpuUsage computes, and what Greedy makes of it.
use mathlib.Core.Option.{get_or}
use devops_platform.Base.{
  ◌≡◌, refl, String, List, [], ◌∷◌, Option, none, some, Result, ok, err, panic, bind, Exec,
  continue, Map, lookup, insert, lookup-insert, bind-ok, subst, ap, ◌∙◌, string_eq, ◌>>=◌, ◌>>◌, ℕ,
  arith, sub64, add64,
}
use devops_platform.Scheduler.Floats.{Float, IsOrdered}
use devops_platform.Scheduler.Stats.{CpuStat, deref, usage_share, idle_of, non_idle_of}
use devops_platform.Scheduler.Node.{Node}
use devops_platform.Scheduler.Pick.{score_of, pick_from, greedy_pick}
use devops_platform.Scheduler.Costs.{
  Answers, usage_between, read_stats, read_usage, calculate_cpu_usage, scored, score_from,
  greedy_cost, greedy_score,
}

sub_self : (a : ℕ) → sub64 a a ≡ 0
sub_self a = grind arith

module _ {F : Type 0} (f : Float F) where
  usage_same : (c : CpuStat) → usage_between f c c ≡ f.zero
  unfolding usage_between usage_share
  usage_same c = ground (arith, sub_self (add64 (idle_of c) (non_idle_of c)), sub_self (idle_of c))

  -- Every value that the computation gives is zero.
  abbrev GivesZero : Exec Node F → Type 0
  GivesZero m = (n n' : Node) (usage : F) → m n ≡ (ok usage, n') → usage ≡ f.zero

  read_usage-GivesZero : GivesZero (read_usage f)
  unfolding usage_between usage_share
  read_usage-GivesZero n n' usage = by_stats n.stats.cpu_stats
    where
      by_stats :
          (stats : Option CpuStat)
          → ◌≡◌ {A = Result F × Node}
              (bind (deref stats) (λ c1. bind (deref stats) λ c2. ok (usage_between f c1 c2)), n)
              (ok usage, n')
          → usage ≡ f.zero
      by_stats none h = ground arith
      by_stats (some c) h = ground (arith, usage_same c)

  then-GivesZero : (m : Exec Node (Unit {0})) (k : Exec Node F) → GivesZero k → GivesZero (m >> k)
  unfolding ◌>>=◌
  then-GivesZero m k zero n n' usage = by_outcome (m n)
    where
      by_outcome :
          (r : Result (Unit {0}) × Node)
          → continue r.0 (λ _. k) r.1 ≡ (ok usage, n')
          → usage ≡ f.zero
      by_outcome (ok x, s) h = zero s n' usage h
      by_outcome (err e, s) h = ground arith
      by_outcome (panic, s) h = ground arith

  -- Whatever a node answers to the two requests, a processor usage that is computed for it is zero.
  pub calculate_cpu_usage_lem :
      (a : Answers) (n n' : Node) (usage : F)
      → calculate_cpu_usage f a n ≡ (ok usage, n')
      → usage ≡ f.zero
  unfolding calculate_cpu_usage
  calculate_cpu_usage_lem a =
      then-GivesZero (read_stats f a.first >> read_stats f a.second) (read_usage f)
        read_usage-GivesZero

  -- Every score of the map is the one of an idle node.
  abbrev IdleScores : Map String F → Type 0
  IdleScores scores =
      (name : String) (c : F) → lookup name scores ≡ some c → c ≡ f.div f.zero f.capacity

  insert-IdleScores :
      (k : String) (v : F) (scores : Map String F)
      → v ≡ f.div f.zero f.capacity
      → IdleScores scores
      → IdleScores (insert k v scores)
  insert-IdleScores k v scores same idle name c h =
      ground (arith, lookup-insert k name v scores, idle name c)

  ok-scores : (m all : Map String F) → ◌≡◌ {A = Result (Map String F)} (ok m) (ok all) → m ≡ all
  ok-scores m all h = ground arith

  scored-idle :
      (scores scores' : Map String F) (r : Result F × Node)
      → ((usage : F) → r.0 ≡ ok usage → usage ≡ f.zero)
      → IdleScores scores
      → scored f (greedy_cost f) scores r ≡ ok scores'
      → IdleScores scores'
  scored-idle scores scores' (ok usage, n) zero idle h = subst IdleScores (ok-scores _ scores' h) (
      insert-IdleScores n.name (f.div usage f.capacity) scores
        (ap (λ u. f.div u f.capacity) (zero usage refl)) idle)
  scored-idle scores scores' (err e, n) zero idle h =
      subst IdleScores (ok-scores scores scores' h) idle
  scored-idle scores scores' (panic, n) zero idle h = cc

  first-of-ok :
      (m all : Map String F) (l rest : List Node)
      → ◌≡◌ {A = Result (Map String F × List Node)} (ok (m, l)) (ok (all, rest))
      → m ≡ all
  first-of-ok m all l rest h = ground arith

  score_from-idle :
      (ns : List (Node × Answers)) (scores all : Map String F) (rest : List Node)
      → IdleScores scores
      → score_from f (greedy_cost f) ns scores ≡ ok (all, rest)
      → IdleScores all
  unfolding score_from
  score_from-idle [] scores all rest idle h =
      subst IdleScores (first-of-ok scores all [] rest h) idle
  score_from-idle ((n, a) ∷ ns) scores all rest idle h =
      let (scores', (first, h')) =
        bind-ok (scored f (greedy_cost f) scores (calculate_cpu_usage f a n)) _ _ h in
      let ((m, l), (next, last)) = bind-ok (score_from f (greedy_cost f) ns scores') _ _ h' in
      subst IdleScores (first-of-ok m all _ rest last) (
        score_from-idle ns scores' m l
          (scored-idle scores scores' (calculate_cpu_usage f a n)
            (λ usage e.
              calculate_cpu_usage_lem a n (calculate_cpu_usage f a n).1 usage
                (ap (λ r. (r, (calculate_cpu_usage f a n).1)) e))
            idle first)
          next)

  score_of_idle :
      (scores : Map String F) (n : Node)
      → f.div f.zero f.capacity ≡ f.zero
      → IdleScores scores
      → score_of f scores n ≡ f.zero
  score_of_idle scores n cap idle = by_found (lookup n.name scores) (idle n.name)
    where
      by_found :
          (found : Option F)
          → ((c : F) → found ≡ some c → c ≡ f.div f.zero f.capacity)
          → get_or found f.zero ≡ f.zero
      by_found none given = refl
      by_found (some c) given = given c refl ∙ cap

  -- No candidate is below another one when every score that is there is zero.
  pick_from-first :
      (o : IsOrdered f) (scores : Map String F)
      → f.div f.zero f.capacity ≡ f.zero
      → IdleScores scores
      → (best : Node) (ns : List Node) → pick_from f scores best (score_of f scores best) ns ≡ best
  unfolding pick_from
  pick_from-first o scores cap idle best [] = refl
  pick_from-first o scores cap idle best (n ∷ ns) = ground (
    arith,
    o.lt_irrefl f.zero,
    score_of_idle scores n cap idle,
    score_of_idle scores best cap idle,
    pick_from-first o scores cap idle best ns,
  )

  empty-IdleScores : IdleScores []
  unfolding lookup
  empty-IdleScores name c h = ground arith

  -- Where `<` is a strict order and zero divided by the capacity is zero, Greedy gives its first
  -- candidate, whatever the nodes answered when it scored.
  pub greedy_picks_first :
      (o : IsOrdered f) (asked : List (Node × Answers)) (scores : Map String F) (rest : List Node)
      → f.div f.zero f.capacity ≡ f.zero
      → greedy_score f asked ≡ ok (scores, rest)
      → (n : Node) (ns : List Node) → greedy_pick f scores (n ∷ ns) ≡ some n
  unfolding greedy_pick greedy_score
  greedy_picks_first o asked scores rest cap h n ns =
      ap some (
        pick_from-first o scores cap (score_from-idle asked [] scores rest empty-IdleScores h) n ns)
