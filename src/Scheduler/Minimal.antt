-- ===== src/Scheduler/Minimal.antt =====
-- What a Pick of internal/adapters/scheduler/scheduler.go promises.
use mathlib.Core.List.{Memᴰ}
use devops_platform.Base.{
  ◌≡◌, refl, sym, subst, Bool, true, false, String, List, [], ◌∷◌, All, some, Map, inl, inr, ◌⊎◌,
  arith,
}
use devops_platform.Scheduler.Floats.{Float, IsOrdered}
use devops_platform.Scheduler.Node.{Node}
use devops_platform.Scheduler.Pick.{score_of, pick_from, round_robin_pick, greedy_pick, epvm_pick}

module _ {F : Type 0} (f : Float F) (o : IsOrdered f) (scores : Map String F) where
  -- The first node has a lower score than the second one.
  abbrev pub is_below : Node → Node → Bool
  is_below a b = f.lt (score_of f scores a) (score_of f scores b)

  -- No node of the list has a lower score than `b`.
  abbrev pub IsLeast : Node → List Node → Type 0
  IsLeast b = All λ n. is_below n b ≡ false

  -- `b` is `best`, or one of the list that is below it.
  abbrev IsFrom : Node → Node → List Node → Type 0
  IsFrom b best ns = (b ≡ best) ⊎ (Memᴰ b ns × (is_below b best ≡ true))

  below_trans : (a b c : Node) → is_below a b ≡ true → is_below b c ≡ true → is_below a c ≡ true
  below_trans a b c = o.lt_trans _ _ _

  from-not-below :
      (b best n : Node) (ns : List Node)
      → IsFrom b best ns
      → is_below n best ≡ false
      → is_below n b ≡ false
  from-not-below b best n ns (inl same) higher = rw same higher
  from-not-below b best n ns (inr (inside, lower)) higher = ground (arith, below_trans n b best)

  from-below :
      (b best n : Node) (ns : List Node)
      → IsFrom b n ns
      → is_below n best ≡ true
      → is_below b best ≡ true
  from-below b best n ns (inl same) lower = rw same lower
  from-below b best n ns (inr (inside, under)) lower = below_trans b n best under lower

  not-below :
      (b best n : Node) → is_below n best ≡ true → is_below n b ≡ false → is_below best b ≡ false
  not-below b best n lower high = ground (arith, below_trans n best b)

  from-Memᴰ : (b n : Node) (ns : List Node) → IsFrom b n ns → Memᴰ b (n ∷ ns)
  from-Memᴰ b n ns (inl same) = Memᴰ.head same
  from-Memᴰ b n ns (inr (inside, under)) = Memᴰ.tail inside

  IsFrom-tail : (b best n : Node) (ns : List Node) → IsFrom b best ns → IsFrom b best (n ∷ ns)
  IsFrom-tail b best n ns (inl same) = inl same
  IsFrom-tail b best n ns (inr (inside, lower)) = inr (Memᴰ.tail inside, lower)

  abbrev IsAnswer : Node → Node → List Node → Type 0
  IsAnswer b best ns = IsLeast b (best ∷ ns) × IsFrom b best ns

  picked : Node → List Node → Node
  unfolding pick_from
  picked best ns = pick_from f scores best (score_of f scores best) ns

  picked_lower :
      (best n : Node) (ns : List Node) → is_below n best ≡ true → picked best (n ∷ ns) ≡ picked n ns
  unfolding picked pick_from
  picked_lower best n ns lower = rw (lower, pick_from) refl

  picked_higher :
      (best n : Node) (ns : List Node)
      → is_below n best ≡ false
      → picked best (n ∷ ns) ≡ picked best ns
  unfolding picked pick_from
  picked_higher best n ns higher = rw (higher, pick_from) refl

  -- The loop ends with the first node, or with one of the list that is below it.
  picked_lem : (best : Node) (ns : List Node) → IsAnswer (picked best ns) best ns
  unfolding picked pick_from
  picked_lem best [] = ((o.lt_irrefl _, tt), inl refl)
  picked_lem best (n ∷ ns) = by_test (is_below n best) refl (picked_lem n ns) (picked_lem best ns)
    where
      by_test :
          (t : Bool)
          → is_below n best ≡ t
          → IsAnswer (picked n ns) n ns
          → IsAnswer (picked best ns) best ns
          → IsAnswer (picked best (n ∷ ns)) best (n ∷ ns)
      by_test true lower ((high, rest), from) _ =
          subst (λ b. IsAnswer b best (n ∷ ns)) (sym (picked_lower best n ns lower))
            (
              (not-below (picked n ns) best n lower high, (high, rest)),
              inr (
                from-Memᴰ (picked n ns) n ns from,
                from-below (picked n ns) best n ns from lower,
              ),
            )
      by_test false higher _ ((high, rest), from) =
          subst (λ b. IsAnswer b best (n ∷ ns)) (sym (picked_higher best n ns higher))
            (
              (high, (from-not-below (picked best ns) best n ns from higher, rest)),
              IsFrom-tail (picked best ns) best n ns from,
            )

  -- Where `<` is a strict order, each of the three schedulers picks, among at least one candidate, one
  -- of them, and no candidate has a lower score.
  pub pick-IsLeast :
      (n : Node) (ns : List Node)
      → let b = pick_from f scores n (score_of f scores n) ns in
        (round_robin_pick f scores (n ∷ ns) ≡ some b)
        × (greedy_pick f scores (n ∷ ns) ≡ some b)
        × (epvm_pick f scores (n ∷ ns) ≡ some b)
        × IsLeast b (n ∷ ns)
        × Memᴰ b (n ∷ ns)
  unfolding round_robin_pick greedy_pick epvm_pick picked
  pick-IsLeast n ns = (refl, refl, refl, (picked_lem n ns).0, from-Memᴰ _ n ns (picked_lem n ns).1)
