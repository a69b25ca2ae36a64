-- ===== src/Base/Maps.antt =====
-- Go's `map[K]V` as an association list with one entry for each key. A range over a map reads its
-- entries in an order that the runtime chooses.
use Prim.Native.Nat.{suc}
use mathlib.Core.Path.{◌≡◌, refl, ap, ◌∙◌}
use mathlib.Core.Bool.{false}
use mathlib.Core.Logic.{inl, inr}
use mathlib.Core.List.{List, [], ◌∷◌}
use mathlib.Core.Option.{Option, none, some}
use native.Mathlib.Omega.{arith}
use devops_platform.Base.Tests.{if◌then◌else◌, Bool-cases}
use devops_platform.Base.Lists.{length}
use devops_platform.Base.Equality.{Comparable, ◌==◌, beq_refl}

abbrev pub Map {ℓ κ} : Type ℓ → Type κ → Type (ℓ ⊔ κ)
Map K V = List (K × V)

module _ {ℓ κ} {K : Type ℓ} {V : Type κ} ⦃e : Comparable K⦄ where
  -- v, ok := m[k]
  unfoldable pub lookup : K → Map K V → Option V
  lookup key [] = none
  lookup key ((j, new) ∷ rest) = if j == key then some new else lookup key rest

  -- m[k] = v
  unfoldable pub insert : K → V → Map K V → Map K V
  insert key new [] = (key, new) ∷ []
  insert key new ((j, old) ∷ rest) =
      if j == key then (key, new) ∷ rest else (j, old) ∷ insert key new rest

  -- delete(m, k)
  unfoldable pub remove : K → Map K V → Map K V
  remove key [] = []
  remove key ((j, old) ∷ rest) = if j == key then rest else (j, old) ∷ remove key rest

  -- No entry has the key.
  abbrev pub Lacks : K → Map K V → Type 0
  Lacks key [] = Unit
  Lacks key ((j, old) ∷ rest) = ((j == key) ≡ false) × Lacks key rest

  -- No key has two entries.
  abbrev pub HasDistinctKeys : Map K V → Type 0
  HasDistinctKeys [] = Unit
  HasDistinctKeys ((j, old) ∷ rest) = Lacks j rest × HasDistinctKeys rest

  pub lookup-insert :
      (key j : K) (new : V) (rest : Map K V)
      → lookup j (insert key new rest) ≡ (if key == j then some new else lookup j rest)
  unfolding lookup insert
  lookup-insert key j new [] = refl
  lookup-insert key j new ((i, old) ∷ rest) =
      ground
        (arith, e.equal_iff key j, e.equal_iff i key, e.equal_iff i j, lookup-insert key j new rest)

  pub lookup-insert_self :
      (key : K) (new : V) (rest : Map K V) → lookup key (insert key new rest) ≡ some new
  lookup-insert_self key new rest = lookup-insert key key new rest ∙ rw (beq_refl key) refl

  -- Of two writes of a key the second one stays.
  pub insert-insert :
      (key : K) (new newer : V) (rest : Map K V)
      → insert key newer (insert key new rest) ≡ insert key newer rest
  unfolding insert
  insert-insert key new newer [] = rw (beq_refl key) refl
  insert-insert key new newer ((j, old) ∷ rest) = elim (Bool-cases (j == key)) [
    | inl b ↦ rw (b, beq_refl key) refl
    | inr b ↦ rw (b, b) (ap (λ r. (j, old) ∷ r) (insert-insert key new newer rest))
  ]

  pub lookup_of_Lacks : (key : K) (rest : Map K V) → Lacks key rest → lookup key rest ≡ none
  unfolding lookup
  lookup_of_Lacks key [] h = refl
  lookup_of_Lacks key ((j, old) ∷ rest) h = ground (arith, lookup_of_Lacks key rest)

  pub lookup-remove :
      (key j : K) (rest : Map K V)
      → HasDistinctKeys rest
      → lookup j (remove key rest) ≡ (if key == j then none else lookup j rest)
  unfolding lookup remove
  lookup-remove key j [] h = ground arith
  lookup-remove key j ((i, old) ∷ rest) h = ground (
    arith,
    e.equal_iff key j,
    e.equal_iff i key,
    e.equal_iff i j,
    lookup-remove key j rest,
    lookup_of_Lacks i rest,
  )

  Lacks-insert :
      (i key : K) (new : V) (rest : Map K V)
      → Lacks i rest
      → (key == i) ≡ false
      → Lacks i (insert key new rest)
  unfolding insert
  Lacks-insert i key new [] h ne = (ne, tt)
  Lacks-insert i key new ((j, old) ∷ rest) h ne = ground (arith, Lacks-insert i key new rest)

  pub insert-HasDistinctKeys :
      (key : K) (new : V) (rest : Map K V)
      → HasDistinctKeys rest
      → HasDistinctKeys (insert key new rest)
  unfolding insert
  insert-HasDistinctKeys key new [] h = (tt, tt)
  insert-HasDistinctKeys key new ((j, old) ∷ rest) h = ground (
    arith,
    e.equal_iff j key,
    e.equal_iff key j,
    Lacks-insert j key new rest,
    insert-HasDistinctKeys key new rest,
  )

  Lacks-remove : (i key : K) (rest : Map K V) → Lacks i rest → Lacks i (remove key rest)
  unfolding remove
  Lacks-remove i key [] h = tt
  Lacks-remove i key ((j, old) ∷ rest) h = ground (arith, Lacks-remove i key rest)

  pub remove-HasDistinctKeys :
      (key : K) (rest : Map K V) → HasDistinctKeys rest → HasDistinctKeys (remove key rest)
  unfolding remove
  remove-HasDistinctKeys key [] h = tt
  remove-HasDistinctKeys key ((j, old) ∷ rest) h =
      ground (arith, Lacks-remove j key rest, remove-HasDistinctKeys key rest)

  -- An insert adds an entry exactly when the key is new.
  pub length-insert :
      (key : K) (new : V) (rest : Map K V)
      → length (insert key new rest)
        ≡ elim (lookup key rest) [ none ↦ suc (length rest) | some _ ↦ length rest ]
  unfolding lookup insert
  length-insert key new [] = refl
  length-insert key new ((j, old) ∷ rest) = ground (arith, length-insert key new rest)
