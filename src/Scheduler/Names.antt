-- ===== src/Scheduler/Names.antt =====
-- The names of the nodes that the schedulers of internal/adapters/scheduler/scheduler.go give back: those of
-- the nodes that they were given.
use devops_platform.Base.{
  ◌≡◌, refl, ◌∙◌, sym, subst, Bool, true, false, String, List, [], ◌∷◌, All, map, Map, Result, ok,
  err, panic, bind-ok, Exec, continue, ◌>>=◌, ◌>>◌, arith, sub64,
}
use devops_platform.Scheduler.Floats.{Float}
use devops_platform.Scheduler.Stats.{Stats}
use devops_platform.Scheduler.Node.{Node, Response, get_stats}
use devops_platform.Scheduler.Pick.{score_of, pick_from}
use devops_platform.Scheduler.Costs.{
  Demand, Answers, check_disk, select_candidate_nodes, read_stats, read_usage, usage_between,
  calculate_cpu_usage, scored, score_from,
}

-- The names of the nodes are of some kind.
abbrev pub Named : (String → Type 0) → List Node → Type 0
Named P = All λ n. P n.name

pub name-get_stats :
    (answer : Result Response) (n n' : Node) (s : Stats)
    → get_stats answer n ≡ ok (n', s)
    → n'.name ≡ n.name
unfolding get_stats
name-get_stats answer n n' s h = ground arith

last-eq :
    {F : Type 0} {a b : Map String F} {xs ys : List Node}
    → ◌≡◌ {A = Result (Map String F × List Node)} (ok (a, xs)) (ok (b, ys))
    → xs ≡ ys
last-eq e = cc

module _ {F : Type 0} (f : Float F) where
  name-read : (answer : Result Response) (n : Node) → (read_stats f answer n).1.name ≡ n.name
  name-read answer n = by_stats (get_stats answer n) refl
    where
      by_stats :
          (r : Result (Node × Stats))
          → get_stats answer n ≡ r
          → (elim r as (λ _. Result (Unit {0}) × Node) [
            | ok (n', _) ↦ (ok tt, n')
            | err e ↦ (err e, n)
            | panic ↦ (panic, n)
          ]).1.name
            ≡ n.name
      by_stats (ok (n', s)) e = name-get_stats answer n n' s e
      by_stats (err e) q = refl
      by_stats panic q = refl

  -- A method that leaves a node its name.
  abbrev KeepsName {ℓ} : {A : Type ℓ} → Exec Node A → Type 0
  KeepsName m = (n : Node) → (m n).1.name ≡ n.name

  KeepsName-then :
      {A : Type 0} (x : Exec Node (Unit {0})) (y : Exec Node A)
      → KeepsName x
      → KeepsName y
      → KeepsName (x >> y)
  unfolding ◌>>=◌
  KeepsName-then {A} x y hx hy n = by_outcome (x n) (hx n)
    where
      by_outcome :
          (r : Result (Unit {0}) × Node)
          → r.1.name ≡ n.name
          → (continue r.0 (λ _. y) r.1).1.name ≡ n.name
      by_outcome (ok u, n') h = hy n' ∙ h
      by_outcome (err e, n') h = h
      by_outcome (panic, n') h = h

  name-calculate : (a : Answers) (n : Node) → (calculate_cpu_usage f a n).1.name ≡ n.name
  unfolding calculate_cpu_usage usage_between
  name-calculate a =
      KeepsName-then (read_stats f a.first >> read_stats f a.second) (read_usage f)
        (KeepsName-then (read_stats f a.first) (read_stats f a.second) (name-read a.first)
          (name-read a.second))
        λ n. refl

  module _ (P : String → Type 0) where
    pub Named-pick_from :
        (scores : Map String F) (best : Node) (lowest : F) (ns : List Node)
        → P best.name
        → Named P ns
        → P (pick_from f scores best lowest ns).name
    unfolding pick_from
    Named-pick_from scores best lowest [] b h = b
    Named-pick_from scores best lowest (n ∷ ns) b h =
        by_test (f.lt (score_of f scores n) lowest)
          (Named-pick_from scores n (score_of f scores n) ns h.0 h.1)
          (Named-pick_from scores best lowest ns b h.1)
      where
        by_test :
            (t : Bool)
            → P (pick_from f scores n (score_of f scores n) ns).name
            → P (pick_from f scores best lowest ns).name
            → P
                (elim t as (λ _. Node) [
                  | true ↦ pick_from f scores n (score_of f scores n) ns
                  | false ↦ pick_from f scores best lowest ns
                ]).name
        by_test true x y = x
        by_test false x y = y

    -- The nodes after a Score have the names of the candidates.
    pub Named-score_from :
        (cost : F → Node → Result F) (answers : Node → Answers) (ns : List Node)
        (scores : Map String F)
        → Named P ns
        → (all : Map String F) (rest : List Node)
        → score_from f cost (map (λ n. (n, answers n)) ns) scores ≡ ok (all, rest)
        → Named P rest
    unfolding score_from
    Named-score_from cost answers [] scores h all rest e = subst (Named P) (last-eq e) tt
    Named-score_from cost answers (n ∷ ns) scores h all rest e =
        let n' = (calculate_cpu_usage f (answers n) n).1 in
        let (scores', (e1, e2)) =
          bind-ok (scored f cost scores (calculate_cpu_usage f (answers n) n)) _ (all, rest) e in
        let ((all', rest'), (e3, e4)) =
          bind-ok (score_from f cost (map (λ n. (n, answers n)) ns) scores') _ (all, rest) e2 in
        subst (Named P) (last-eq e4) (
          subst P (sym (name-calculate (answers n) n)) h.0,
          Named-score_from cost answers ns scores' h.1 all' rest' e3,
        )

pub Named-select :
    (P : String → Type 0) (t : Demand) (ns : List Node)
    → Named P ns
    → Named P (select_candidate_nodes t ns)
unfolding select_candidate_nodes
Named-select P t [] h = tt
Named-select P t (n ∷ ns) h =
    by_test (check_disk t (sub64 n.disk n.disk_allocated)) (Named-select P t ns h.1)
  where
    by_test :
        (b : Bool)
        → Named P (select_candidate_nodes t ns)
        → Named P (elim b as (λ _. List Node) [
          | true ↦ n ∷ select_candidate_nodes t ns
          | false ↦ select_candidate_nodes t ns
        ])
    by_test true rest = (h.0, rest)
    by_test false rest = rest
