-- ===== src/Manager/Reports.antt =====
-- What the reports of the workers change in the task store: updateTasks of
-- internal/adapters/manager/manager.go.
use devops_platform.Base.{
  ◌≡◌, refl, ◌∙◌, sym, ap, subst, String, List, [], ◌∷◌, inl, inr, ◌⊎◌, ◌==◌, string_eq, Bool-cases,
  Result, ok, err, panic, Exec, continue, pure, ◌>>=◌, ◌>>◌, nat_eq,
}
use devops_platform.Task.Defs.{Task, Uuid}
use devops_platform.Store.Port.{Store, Value, IsTaskStore}
use devops_platform.Store.Port as Port
use devops_platform.Manager.Defs.{Manager}
use devops_platform.Manager.Polling.{
  Poll, unreachable, answered, merged, put_back, update_found, update_task, update_all, update_from,
  poll_workers, update_tasks,
}

-- The same task, but for the four fields that a worker reports.
pub record IsReport (old new : Task) : Type 0 where
  pub metadata : new.metadata ≡ old.metadata
  pub spec : new.spec ≡ old.spec
  pub message : new.status.message ≡ old.status.message
  pub reason : new.status.reason ≡ old.status.reason
  pub exit_code : new.status.exit_code ≡ old.status.exit_code
  pub restart_count : new.status.restart_count ≡ old.status.restart_count
  pub last_restart_time : new.status.last_restart_time ≡ old.status.last_restart_time

IsReport-trans : (a b c : Task) → IsReport a b → IsReport b c → IsReport a c
IsReport-trans a b c h k = record {
  metadata = k.metadata ∙ h.metadata;
  spec = k.spec ∙ h.spec;
  message = k.message ∙ h.message;
  reason = k.reason ∙ h.reason;
  exit_code = k.exit_code ∙ h.exit_code;
  restart_count = k.restart_count ∙ h.restart_count;
  last_restart_time = k.last_restart_time ∙ h.last_restart_time;
}

merged-IsReport : (reported old : Task) → IsReport old (merged reported old)
unfolding merged
merged-IsReport reported old = record {
  metadata = refl;
  spec = refl;
  message = refl;
  reason = refl;
  exit_code = refl;
  restart_count = refl;
  last_restart_time = refl;
}

IsReport-refl : (t : Task) → IsReport t t
IsReport-refl t = record {
  metadata = refl;
  spec = refl;
  message = refl;
  reason = refl;
  exit_code = refl;
  restart_count = refl;
  last_restart_time = refl;
}

module _ {S : Type 0} {store : Store S} {IsSound : S → Type 0} {init : S}
    (laws : IsTaskStore store IsSound init) (id_string : Uuid → String) where
  -- Every task is stored under its own identifier.
  abbrev pub IsKeyed : S → Type 0
  IsKeyed s =
      (k : String) (t : Task) → store.get k s ≡ ok (Port.task t) → id_string t.metadata.id ≡ k

  -- A stored task stays stored, but for what is reported of it, and a missing key stays missing.
  pub record Reports (s s' : S) : Type 0 where
    pub kept :
        (k : String) (old : Task)
        → store.get k s ≡ ok (Port.task old)
        → (new : Task) × (store.get k s' ≡ ok (Port.task new)) × IsReport old new
    pub missing : (k e : String) → store.get k s ≡ err e → store.get k s' ≡ err e

  -- From a sound store of tasks under their own identifiers, only reports reach the store.
  abbrev pub Updates : S → S → Type 0
  Updates s s' = IsSound s → IsKeyed s → IsSound s' × IsKeyed s' × Reports s s'

  Updates-refl : (s : S) → Updates s s
  Updates-refl s h k =
      (h, k, record { kept = λ j t e. (t, e, IsReport-refl t); missing = λ j e p. p })

  Updates-trans : (a b c : S) → Updates a b → Updates b c → Updates a c
  Updates-trans a b c p q h k =
      let (h', k', r) = p h k in
      let (h'', k'', r') = q h' k' in
      (
        h'',
        k'',
        record {
          kept = λ j t e.
              let (t', e', i) = r.kept j t e in
              let (t'', e'', i') = r'.kept j t' e' in (t'', e'', IsReport-trans t t' t'' i i');
          missing = λ j e p. r'.missing j e (r.missing j e p);
        },
      )

  -- The put of updateTasks.
  module _ (reported old : Task) (s : S) {s' : S} (h : IsSound s) (keyed : IsKeyed s)
      (g : store.get (id_string old.metadata.id) s ≡ ok (Port.task old))
      (p : store.put (id_string old.metadata.id) (Port.task (merged reported old)) s ≡ ok s') where
    put-cases :
        (j : String)
        → ((id_string old.metadata.id ≡ j)
            × (store.get j s' ≡ ok (Port.task (merged reported old))))
          ⊎ (store.get j s' ≡ store.get j s)
    put-cases j =
        let got = laws.get-put (id_string old.metadata.id) j (merged reported old) s h p in
        elim (Bool-cases (id_string old.metadata.id == j)) [
          | inl b ↦ inl ((string_eq.equal_iff (id_string old.metadata.id) j).0 b, got ∙ rw b refl)
          | inr b ↦ inr (got ∙ rw b refl)
        ]

    put-IsKeyed : IsKeyed s'
    unfolding merged
    put-IsKeyed j t e = elim (put-cases j) [
      | inl (q, r) ↦ ap (λ v. id_string (task_id v)) (sym e ∙ r) ∙ q
      | inr r ↦ keyed j t (sym r ∙ e)
    ]
      where
        task_id : Result Value → Uuid
        task_id (ok (Port.task t)) = t.metadata.id
        task_id _ = 0

    put-Reports : Reports s s'
    put-Reports = record {
      kept = λ j t e. elim (put-cases j) [
        | inl (q, r) ↦
            let same : old ≡ t = cc in
            (
              merged reported old,
              r,
              subst (λ x. IsReport x (merged reported old)) same (merged-IsReport reported old),
            )
        | inr r ↦ (t, r ∙ e, IsReport-refl t)
      ];
      missing = λ j e m. elim (put-cases j) [ inl (q, r) ↦ cc | inr r ↦ r ∙ m ];
    }

    put-Updates : Updates s s'
    put-Updates h k = (
      laws.put-IsSound (id_string old.metadata.id) (merged reported old) s h p,
      put-IsKeyed,
      put-Reports,
    )

  module _ {E : Type 0} where
    -- A method of the manager with these effects on its task store.
    abbrev Changes : Exec (Manager S E) (Unit {0}) → Type 0
    Changes x = (m : Manager S E) → Updates m.task_db (x m).1.task_db

    Changes-pure : Changes (pure tt)
    Changes-pure m = Updates-refl m.task_db

    Changes-then : (x y : Exec (Manager S E) (Unit {0})) → Changes x → Changes y → Changes (x >> y)
    unfolding ◌>>=◌
    Changes-then x y p q m = by_outcome (x m) (p m)
      where
        by_outcome :
            (r : Result (Unit {0}) × Manager S E)
            → Updates m.task_db r.1.task_db
            → Updates m.task_db (continue r.0 (λ _. y) r.1).1.task_db
        by_outcome (ok u, m') u' = Updates-trans m.task_db m'.task_db (y m').1.task_db u' (q m')
        by_outcome (err e, m') u' = u'
        by_outcome (panic, m') u' = u'

    update_task-Changes : (t : Task) → Changes (update_task id_string store t)
    unfolding update_task merged
    update_task-Changes t m h k = by_stored (store.get (id_string t.metadata.id) m.task_db) refl
      where
        put : Task → Result S
        put old = store.put (id_string old.metadata.id) (Port.task (merged t old)) m.task_db

        by_put :
            (old : Task)
            → store.get (id_string t.metadata.id) m.task_db ≡ ok (Port.task old)
            → (r : Result S) → put old ≡ r
            → IsSound (put_back r m).1.task_db
              × IsKeyed (put_back r m).1.task_db
              × Reports m.task_db (put_back r m).1.task_db
        by_put old g (ok db) p =
            put-Updates t old m.task_db h k
              (subst (λ j. store.get j m.task_db ≡ ok (Port.task old)) (sym (k _ old g)) g) p h k
        by_put old g (err e) p = Updates-refl m.task_db h k
        by_put old g panic p = Updates-refl m.task_db h k

        by_stored :
            (r : Result Value)
            → store.get (id_string t.metadata.id) m.task_db ≡ r
            → IsSound (update_found id_string store t r m).1.task_db
              × IsKeyed (update_found id_string store t r m).1.task_db
              × Reports m.task_db (update_found id_string store t r m).1.task_db
        by_stored (ok (Port.task old)) g = by_put old g (put old) refl
        by_stored (ok (Port.event e)) g = Updates-refl m.task_db h k
        by_stored (ok Port.other) g = Updates-refl m.task_db h k
        by_stored (err e) g = Updates-refl m.task_db h k
        by_stored panic g = Updates-refl m.task_db h k

    update_all-Changes : (ts : List Task) → Changes (update_all id_string store ts)
    unfolding update_all
    update_all-Changes [] = Changes-pure
    update_all-Changes (t ∷ ts) = Changes-then _ _ (update_task-Changes t) (update_all-Changes ts)

    update_from-Changes : (p : Poll) → Changes (update_from id_string store p)
    unfolding update_from
    update_from-Changes (unreachable e) m = Changes-pure m
    update_from-Changes (answered status ts) m = elim (Bool-cases (status == 200)) [
      | inl b ↦ rw b (update_all-Changes ts m)
      | inr b ↦ rw b (Changes-pure m)
    ]

    poll_workers-Changes :
        (poll : String → Poll) (ws : List String) → Changes (poll_workers id_string store poll ws)
    unfolding poll_workers
    poll_workers-Changes poll [] = Changes-pure
    poll_workers-Changes poll (w ∷ ws) =
        Changes-then _ _ (update_from-Changes (poll w)) (poll_workers-Changes poll ws)

    -- In a task store that meets the laws, where every task is stored under its own identifier,
    -- updateTasks keeps it so, whatever the workers report, and changes of each stored task only the
    -- state, both times and the container; a missing key stays missing.
    pub update_tasks-Reports :
        (poll : String → Poll) (m : Manager S E)
        → IsSound m.task_db
        → IsKeyed m.task_db
        → let db = (update_tasks id_string store poll m).1.task_db in
          IsSound db × IsKeyed db × Reports m.task_db db
    unfolding update_tasks
    update_tasks-Reports poll m = poll_workers-Changes poll m.workers m
