-- ===== src/Docker/Books.antt =====
-- The containers of a pool of internal/adapters/resource/docker/docker_pool.go, from its set-up to Cleanup.
use devops_platform.Base.{
  ◌≡◌, refl, ◌∙◌, ap, sym, true, false, String, List, [], ◌∷◌, ◌++◌, ◌==◌, string_eq, arith,
  Bool-cases, inl, inr, ok, subst,
}
use devops_platform.Docker.Client.{Docker, IsDockerHost, is_in, without, without-new}
use devops_platform.Docker.Pool.{Site, remove_all, cleanup}

-- The containers after these are added to the others in turn.
abbrev pub stack : List String → List String → List String
stack [] ids = ids
stack (w ∷ ws) ids = stack ws (w ∷ ids)

-- Each is new where it is added.
abbrev pub IsFresh : List String → List String → Type 0
IsFresh [] ids = Unit
IsFresh (w ∷ ws) ids = (is_in w ids ≡ false) × IsFresh ws (w ∷ ids)

pub stack-snoc :
    (ws : List String) (w : String) (ids : List String)
    → stack (ws ++ w ∷ []) ids ≡ w ∷ stack ws ids
stack-snoc [] w ids = refl
stack-snoc (x ∷ xs) w ids = stack-snoc xs w (x ∷ ids)

pub IsFresh-snoc :
    (ws : List String) (w : String) (ids : List String)
    → IsFresh ws ids
    → is_in w (stack ws ids) ≡ false
    → IsFresh (ws ++ w ∷ []) ids
IsFresh-snoc [] w ids h k = (k, tt)
IsFresh-snoc (x ∷ xs) w ids h k = (h.0, IsFresh-snoc xs w (x ∷ ids) h.1 k)

is_in_head : (x : String) (ids : List String) → is_in x (x ∷ ids) ≡ true
is_in_head x ids = rw ((string_eq.equal_iff x x).1 refl) refl

without_head : (x : String) (ids : List String) → is_in x ids ≡ false → without x (x ∷ ids) ≡ ids
without_head x ids h = rw ((string_eq.equal_iff x x).1 refl) (without-new x ids h)

is_in-stack :
    (x : String) (ws ids : List String) → is_in x ids ≡ true → is_in x (stack ws ids) ≡ true
is_in-stack x [] ids h = h
is_in-stack x (w ∷ ws) ids h = is_in-stack x ws (w ∷ ids) (ground arith)

-- A container that is there is not one that is added later.
without-stack :
    (x : String) (ws ids : List String)
    → is_in x ids ≡ true
    → IsFresh ws ids
    → without x (stack ws ids) ≡ stack ws (without x ids)
without-stack x [] ids i h = refl
without-stack x (w ∷ ws) ids i h =
    let other : (w == x) ≡ false = elim (Bool-cases (w == x)) [
      | inl b ↦
          absurd (
            ground (arith, subst (λ y. is_in y ids ≡ true) (sym ((string_eq.equal_iff w x).0 b)) i))
      | inr b ↦ b
    ] in
    without-stack x ws (w ∷ ids) (rw other i) h.1 ∙ rw other refl

-- What is new to a list is new to a part of it.
IsFresh-part :
    (ws small big : List String)
    → ((x : String) → is_in x small ≡ true → is_in x big ≡ true)
    → IsFresh ws big
    → IsFresh ws small
IsFresh-part [] small big sub h = tt
IsFresh-part (w ∷ ws) small big sub h = (
  ground (arith, sub w),
  IsFresh-part ws (w ∷ small) (w ∷ big) (λ x i. ground (arith, sub x)) h.1,
)

module _ {D : Type 0} (docker : Docker D) {containers : D → List String}
    (laws : IsDockerHost docker containers) where
  -- A forced removal of a container that is there succeeds.
  abbrev pub Removes : Type 0
  Removes = (id : String) (d : D) → is_in id (containers d) ≡ true → (docker.remove id d).0 ≡ ok tt

  removed :
      (id : String) (d : D)
      → Removes
      → is_in id (containers d) ≡ true
      → containers (docker.remove id d).1 ≡ without id (containers d)
  removed id d rm i = laws.remove-takes id d (rm id d i)

  remove_all-stack :
      (ws ids : List String) (d : D)
      → Removes
      → IsFresh ws ids
      → containers d ≡ stack ws ids
      → containers (remove_all docker ws d) ≡ ids
  remove_all-stack [] ids d rm h e = e
  remove_all-stack (w ∷ ws) ids d rm h e =
      let there : is_in w (containers d) ≡ true =
        rw e (is_in-stack w ws (w ∷ ids) (is_in_head w ids)) in
      remove_all-stack ws ids (docker.remove w d).1 rm
        (IsFresh-part ws ids (w ∷ ids) (λ x i. ground arith) h.1)
        (removed w d rm there
          ∙ ap (without w) e
          ∙ without-stack w ws (w ∷ ids) (is_in_head w ids) h.1
          ∙ ap (stack ws) (without_head w ids h.0))

  module _ (base : List String) where
    -- The host has the manager's container on the others, and the workers' on it.
    pub record Owns (s : Site D) : Type 0 where
      pub all : containers s.host ≡ stack s.pool.worker_ids (s.pool.manager_id ∷ base)
      pub workers-new : IsFresh s.pool.worker_ids (s.pool.manager_id ∷ base)
      pub manager-new : is_in s.pool.manager_id base ≡ false

    pub cleanup-Owns : (s : Site D) → Removes → Owns s → containers (cleanup docker s).host ≡ base
    unfolding cleanup
    cleanup-Owns s rm h =
        let d = remove_all docker s.pool.worker_ids s.host in
        let left =
          remove_all-stack s.pool.worker_ids (s.pool.manager_id ∷ base) s.host rm h.workers-new
            h.all in
        laws.network_remove-keeps s.pool.network_id (docker.remove s.pool.manager_id d).1
        ∙ removed s.pool.manager_id d rm (rw left (is_in_head s.pool.manager_id base))
        ∙ ap (without s.pool.manager_id) left
        ∙ without_head s.pool.manager_id base h.manager-new
