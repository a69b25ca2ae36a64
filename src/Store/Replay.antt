-- ===== src/Store/Replay.antt =====
-- The contract of the task stores of internal/adapters/store/store.go: a run of writes seen as writes to a
-- function from keys to tasks.
use devops_platform.Base.{
  ◌≡◌, refl, ◌∙◌, sym, String, List, [], ◌∷◌, inl, inr, Bool-cases, Option, none, some, ◌==◌,
  string_eq, if◌then◌else◌, Result, ok, err, panic,
}
use devops_platform.Task.Defs.{Task}
use devops_platform.Store.Port.{Store, Value, IsTaskStore, task}

-- A call of a method that writes.
pub data Write : Type 0 where
  put : String → Task → Write
  delete : String → Write

-- What Get gives of a task, an error being a missing one.
abbrev pub seen : Result Value → Option Task
seen (ok (task t)) = some t
seen r = none

-- The specification: a table of tasks, where a write sets one entry.
abbrev pub Table : Type 0
Table = String → Option Task

abbrev pub set : Write → Table → Table
set (put j t) table k = if j == k then some t else table k
set (delete j) table k = if j == k then none else table k

abbrev pub replay : List Write → Table → Table
replay [] table = table
replay (w ∷ ws) table = replay ws (set w table)

module _ {S : Type 0} (store : Store S) where
  abbrev pub write : Write → S → Result S
  write (put k t) = store.put k (task t)
  write (delete k) = store.delete k

  abbrev pub view : S → Table
  view s k = seen (store.get k s)

  -- The state after the write, and the write if it was accepted, in front of the others.
  abbrev pub note : Write → S → Result S → S
  note w s (ok s') = s'
  note w s r = s

  abbrev pub log : Write → Result S → List Write → List Write
  log w (ok s') ws = w ∷ ws
  log w r ws = ws

  -- The state after the writes, of which those that fail change nothing, and the accepted ones.
  abbrev pub run : List Write → S → S × List Write
  run [] s = (s, [])
  run (w ∷ ws) s =
      let r = write w s in let (last, accepted) = run ws (note w s r) in (last, log w r accepted)

pub replay-cong :
    (ws : List Write) (a b : Table)
    → ((k : String) → a k ≡ b k)
    → (k : String) → replay ws a k ≡ replay ws b k
replay-cong [] a b h = h
replay-cong (put j t ∷ ws) a b h =
    replay-cong ws (set (put j t) a) (set (put j t) b) λ k. rw (h k) refl
replay-cong (delete j ∷ ws) a b h =
    replay-cong ws (set (delete j) a) (set (delete j) b) λ k. rw (h k) refl

module _ {S : Type 0} {store : Store S} {IsSound : S → Type 0} {init : S}
    (laws : IsTaskStore store IsSound init) where
  write-IsSound : (w : Write) (s : S) {s' : S} → IsSound s → write store w s ≡ ok s' → IsSound s'
  write-IsSound (put k t) s h e = laws.put-IsSound k t s h e
  write-IsSound (delete k) s h e = laws.delete-IsSound k s h e

  view-write :
      (w : Write) (s : S) {s' : S}
      → IsSound s
      → write store w s ≡ ok s'
      → (k : String) → view store s' k ≡ set w (view store s) k
  view-write (put j t) s h e k = elim (Bool-cases (j == k)) [
    | inl b ↦ rw (laws.get-put j k t s h e, b) refl
    | inr b ↦ rw (laws.get-put j k t s h e, b) refl
  ]
  view-write (delete j) s h e k = elim (Bool-cases (j == k)) [
    | inl b ↦
        let (m, g) = laws.get-delete_self j s h e in
        rw (b, sym ((string_eq.equal_iff j k).0 b), g) refl
    | inr b ↦ rw (b, laws.get-delete_ne j k s h e b) refl
  ]

  view-run :
      (ws : List Write) (s : S)
      → IsSound s
      → (k : String) → view store (run store ws s).0 k ≡ replay (run store ws s).1 (view store s) k
  view-run [] s h k = refl
  view-run (w ∷ ws) s h k = by_outcome (write store w s) refl (λ s' h'. view-run ws s' h' k)
    where
      by_outcome :
          (r : Result S)
          → write store w s ≡ r
          → ((s' : S)
              → IsSound s'
              → view store (run store ws s').0 k ≡ replay (run store ws s').1 (view store s') k)
          → view store (run store ws (note store w s r)).0 k
            ≡ replay (log store w r (run store ws (note store w s r)).1) (view store s) k
      by_outcome (ok s') e rec =
          let accepted = (run store ws s').1 in
          rec s' (write-IsSound w s h e)
          ∙ replay-cong accepted (view store s') (set w (view store s)) (view-write w s h e) k
      by_outcome (err e) q rec = rec s h
      by_outcome panic q rec = rec s h

  -- Every store that meets the laws implements the table: after any writes from the initial state, Get
  -- gives at every key what the accepted writes leave in a table that was empty.
  pub run_refines :
      (ws : List Write) (k : String)
      → view store (run store ws init).0 k ≡ replay (run store ws init).1 (λ j. none) k
  run_refines ws k =
      view-run ws init laws.init-IsSound k
      ∙ replay-cong (run store ws init).1 (view store init) (λ j. none) empty k
    where
      empty : (j : String) → view store init j ≡ none
      empty j = let (e, g) = laws.get-init j in rw g refl
