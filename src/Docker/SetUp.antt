-- ===== src/Docker/SetUp.antt =====
-- What the set-up of a pool of internal/adapters/resource/docker/docker_pool.go leaves on the docker host.
use devops_platform.Base.{
  ℕ, zero, suc, ◌+◌, ◌≡◌, refl, ◌∙◌, ap, sym, false, String, concat, List, [], ◌∷◌, ◌++◌, Option,
  none, some, string_eq, Result, ok, err, panic, Exec, continue, ◌>>=◌, subst,
}
use devops_platform.Docker.Client.{Docker, IsDockerHost, Creation, Network, is_in}
use devops_platform.Docker.Pool.{
  Site, wrap, create_network, network_of, network_named, set_network, create_and_start,
  start_manager, set_manager, manager_ip, address_in, add_worker, start_from, start_workers,
  init_worker_client, dialled, set_up, new_site, cleanup, manager_creation, worker_creation,
}
use devops_platform.Docker.Books.{
  Owns, Removes, stack, IsFresh, stack-snoc, IsFresh-snoc, cleanup-Owns,
}

-- What holds where a method succeeds.
abbrev Ends : {W A : Type 0} → (A → W → Type 0) → Result A × W → Type 0
Ends post (ok a, s) = post a s
Ends post (err e, s) = Unit
Ends post (panic, s) = Unit

Ends-bind :
    {W A B : Type 0} (mid : A → W → Type 0) (post : B → W → Type 0) (x : Exec W A)
    (f : A → Exec W B) (s : W)
    → Ends mid (x s)
    → ((a : A) (s' : W) → mid a s' → Ends post (f a s'))
    → Ends post ((x >>= f) s)
unfolding ◌>>=◌
Ends-bind {W = W} {A = A} mid post x f s h k = by_outcome (x s) h
  where
    by_outcome : (r : Result A × W) → Ends mid r → Ends post (continue r.0 f r.1)
    by_outcome (ok a, s') m = k a s' m
    by_outcome (err e, s') m = tt
    by_outcome (panic, s') m = tt

module _ {D : Type 0} (docker : Docker D) {containers : D → List String}
    (laws : IsDockerHost docker containers) (base : List String) where
  -- Nothing of the pool runs yet.
  abbrev Bare : Site D → Type 0
  Bare s = (containers s.host ≡ base) × (s.pool.worker_ids ≡ [])

  network_of-Bare :
      (found : Option String) (name : String) (s : Site D)
      → Bare s
      → Ends (λ _. Bare) (network_of docker found name s)
  network_of-Bare (some id) name s h = h
  network_of-Bare none name s h =
      Ends-bind (λ _. Bare) (λ _. Bare) _ (set_network docker) s
        (by_answer (docker.network_create name s.host) (laws.network_create-keeps name s.host))
        λ id s' k. k
    where
      by_answer :
          (r : Result String × D)
          → containers r.1 ≡ containers s.host
          → Ends (λ _. Bare) (wrap "failed to create network" r.0, record s { host = r.1 })
      by_answer (ok id, d) e = (e ∙ h.0, h.1)
      by_answer (err x, d) e = tt
      by_answer (panic, d) e = tt

  create_network-Bare : (s : Site D) → Bare s → Ends (λ _. Bare) (create_network docker s)
  unfolding create_network
  create_network-Bare s h =
      Ends-bind (λ _. Bare) (λ _. Bare) _ _ s (by_list (docker.network_list s.host))
        λ networks s' k.
          network_of-Bare (network_named (concat "devops-platform-" s'.pool.id) networks) _ s' k
    where
      by_list :
          (r : Result (List Network))
          → Ends {A = List Network} (λ _. Bare) (wrap "failed to list networks" r, s)
      by_list (ok ns) = h
      by_list (err e) = tt
      by_list panic = tt

  -- A container that is created and starts is on top of those before, and new.
  abbrev Added : Site D → String → Site D → Type 0
  Added s id s' =
      (containers s'.host ≡ id ∷ containers s.host)
      × (is_in id (containers s.host) ≡ false)
      × (s'.pool ≡ s.pool)

  create_and_start-Added :
      (role : String) (c : Creation) (s : Site D)
      → Ends (Added s) (create_and_start docker role c s)
  unfolding create_and_start
  create_and_start-Added role c s =
      Ends-bind (Added s) (Added s) _ _ s (by_created (docker.create c s.host) refl) λ id s' k.
        Ends-bind (λ _. Added s id) (Added s) _ _ s'
          (by_started id s' k (docker.start id s'.host) (laws.start-keeps id s'.host))
          λ u s'' k'. k'
    where
      by_created :
          (r : Result String × D)
          → docker.create c s.host ≡ r
          → Ends (Added s) (
            wrap (concat "failed to create " (concat role " container")) r.0,
            record s { host = r.1 },
          )
      by_created (ok id, d) e =
          let (all, new) = laws.create-new c s.host (ap (λ r. r.0) e) in
          (ap (λ r. containers r.1) (sym e) ∙ all, new, refl)
      by_created (err x, d) e = tt
      by_created (panic, d) e = tt

      by_started :
          (id : String) (s' : Site D)
          → Added s id s'
          → (r : Result (Unit {0}) × D) → containers r.1 ≡ containers s'.host
          → Ends
              (λ u. Added s id)
              (
                wrap (concat "failed to start " (concat role " container")) r.0,
                record s' { host = r.1 },
              )
      by_started id s' k (ok u, d) e = (e ∙ k.0, k.1, k.2)
      by_started id s' k (err x, d) e = tt
      by_started id s' k (panic, d) e = tt

  start_manager-Owns :
      (s : Site D) → Bare s → Ends (λ _. Owns docker laws base) (start_manager docker s)
  unfolding start_manager
  start_manager-Owns s h =
      Ends-bind (Added s) (λ _. Owns docker laws base) _ (set_manager docker) s
        (create_and_start-Added "manager" (manager_creation s.pool) s)
        λ id s' k.
          let none_yet : s'.pool.worker_ids ≡ [] = ap (λ p. p.worker_ids) k.2 ∙ h.1 in
          record {
            all = k.0 ∙ ap (λ ids. id ∷ ids) h.0 ∙ sym (ap (λ ws. stack ws (id ∷ base)) none_yet);
            workers-new = subst (λ ws. IsFresh ws (id ∷ base)) (sym none_yet) tt;
            manager-new = subst (λ ids. is_in id ids ≡ false) h.0 k.1;
          }

  -- The address of the manager is read, and nothing changes.
  manager_ip-Ends : (P : Site D → Type 0) (s : Site D) → P s → Ends (λ _. P) (manager_ip docker s)
  manager_ip-Ends P s h =
      by_address (address_in docker s.pool.network_id (docker.inspect s.pool.manager_id s.host))
    where
      by_address : (r : Result String) → Ends {A = String} (λ _. P) (r, s)
      by_address (ok a) = h
      by_address (err e) = tt
      by_address panic = tt

  start_from-Owns :
      (ip : String) (left i : ℕ) (s : Site D)
      → Owns docker laws base s
      → Ends (λ _. Owns docker laws base) (start_from docker ip left i s)
  unfolding start_from
  start_from-Owns ip zero i s h = h
  start_from-Owns ip (suc left) i s h =
      Ends-bind (λ _. Owns docker laws base) (λ _. Owns docker laws base) _ _ s
        (Ends-bind (Added s) (λ _. Owns docker laws base) _ (add_worker docker) s
          (create_and_start-Added "worker" (worker_creation s.pool ip i) s)
          λ id s' k. record {
            all =
                k.0
                ∙ ap (λ ids. id ∷ ids) h.all
                ∙ sym (stack-snoc s.pool.worker_ids id (s.pool.manager_id ∷ base))
                ∙ ap (λ p. stack (p.worker_ids ++ id ∷ []) (p.manager_id ∷ base)) (sym k.2);
            workers-new =
                subst (λ p. IsFresh (p.worker_ids ++ id ∷ []) (p.manager_id ∷ base)) (sym k.2)
                  (IsFresh-snoc s.pool.worker_ids id (s.pool.manager_id ∷ base) h.workers-new
                    (subst (λ ids. is_in id ids ≡ false) h.all k.1));
            manager-new = subst (λ p. is_in p.manager_id base ≡ false) (sym k.2) h.manager-new;
          })
        λ u s' k. start_from-Owns ip left (i + 1) s' k

  init-Owns :
      (dial : String → Result (Unit {0})) (s : Site D)
      → Owns docker laws base s
      → Ends (λ _. Owns docker laws base) (init_worker_client docker dial s)
  unfolding init_worker_client
  init-Owns dial s h =
      Ends-bind (λ _. Owns docker laws base) (λ _. Owns docker laws base) _ _ s
        (manager_ip-Ends (Owns docker laws base) s h)
        λ ip s' k. by_dial (dial (concat ip ":50051")) s' k
    where
      by_dial :
          (r : Result (Unit {0})) (s' : Site D)
          → Owns docker laws base s'
          → Ends (λ _. Owns docker laws base) (dialled docker r s')
      by_dial (ok u) s' k = record {
        all = k.all;
        workers-new = k.workers-new;
        manager-new = k.manager-new;
      }
      by_dial (err e) s' k = tt
      by_dial panic s' k = tt

  set_up-Owns :
      (dial : String → Result (Unit {0})) (s : Site D)
      → Bare s
      → Ends (λ _. Owns docker laws base) (set_up docker dial s)
  unfolding set_up start_workers
  set_up-Owns dial s h =
      Ends-bind (λ _. Bare) (λ _. Owns docker laws base) _ _ s (create_network-Bare s h)
        λ u s1 h1.
          Ends-bind (λ _. Owns docker laws base) (λ _. Owns docker laws base) _ _ s1
            (start_manager-Owns s1 h1)
            λ u s2 h2.
              Ends-bind (λ _. Owns docker laws base) (λ _. Owns docker laws base) _ _ s2
                (Ends-bind (λ _. Owns docker laws base) (λ _. Owns docker laws base) _ _ s2
                  (manager_ip-Ends (Owns docker laws base) s2 h2)
                  λ ip s3 h3. start_from-Owns ip 2 0 s3 h3)
                λ u s4 h4. init-Owns dial s4 h4

module _ {D : Type 0} (docker : Docker D) {containers : D → List String}
    (laws : IsDockerHost docker containers) where
  -- On a docker host that keeps its containers and removes by force each one that is there, Cleanup of a
  -- pool that was set up leaves exactly the containers that were there before.
  pub cleanup-set_up :
      (dial : String → Result (Unit {0})) (id name endpoint : String) (d : D) {s : Site D}
      → Removes docker laws
      → set_up docker dial (new_site docker id name endpoint d) ≡ (ok tt, s)
      → containers (cleanup docker s).host ≡ containers d
  cleanup-set_up dial id name endpoint d {s = s} rm e =
      cleanup-Owns docker laws (containers d) s rm (
        subst (Ends λ _. Owns docker laws (containers d)) e (
          set_up-Owns docker laws (containers d) dial (new_site docker id name endpoint d)
            (refl, refl)))

  -- A set-up whose manager is created but does not start fails and leaves that container on the host.
  pub set_up_leaks :
      (dial : String → Result (Unit {0})) (s s' : Site D) (id e : String)
      → create_network docker s ≡ (ok tt, s')
      → (docker.create (manager_creation s'.pool) s'.host).0 ≡ ok id
      → (docker.start id (docker.create (manager_creation s'.pool) s'.host).1).0 ≡ err e
      → let (r, after) = set_up docker dial s in
        (r ≡ err (concat "failed to start manager container: " e))
        × (containers after.host ≡ id ∷ containers s'.host)
  unfolding set_up start_manager create_and_start ◌>>=◌
  set_up_leaks dial s s' id e n c st =
      rw (n, c, st)
        (refl, laws.start-keeps id _ ∙ (laws.create-new (manager_creation s'.pool) s'.host c).0)
