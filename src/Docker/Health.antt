-- ===== src/Docker/Health.antt =====
-- GetHealthStatus of internal/adapters/resource/docker/docker_pool.go.
use devops_platform.Base.{
  ℕ, ◌+◌, ◌≡◌, refl, Bool, true, ◌&&◌, String, List, [], ◌∷◌, Bool-cases, inl, inr,
}
use devops_platform.Docker.Client.{Docker}
use devops_platform.Docker.Pool.{Site, runs, worker_health, get_health_status, new_health_status}

module _ {D : Type 0} (docker : Docker D) where
  abbrev pub all_run : D → List String → Bool
  all_run d [] = true
  all_run d (id ∷ ids) = runs docker d id && all_run d ids

  worker_health-all_run :
      (now : ℕ) (d : D) (i : ℕ) (ids : List String)
      → (worker_health docker now d i ids).is_healthy ≡ all_run d ids
  unfolding worker_health new_health_status
  worker_health-all_run now d i [] = refl
  worker_health-all_run now d i (id ∷ ids) = elim (Bool-cases (runs docker d id)) [
    | inl b ↦ rw b (worker_health-all_run now d (i + 1) ids)
    | inr b ↦ rw b refl
  ]

  -- A pool is healthy exactly where the containers of its manager and of all its workers can be inspected
  -- and run.
  pub get_health_status_iff :
      (now : ℕ) (s : Site D)
      → (get_health_status docker now s).is_healthy
        ≡ all_run s.host (s.pool.manager_id ∷ s.pool.worker_ids)
  unfolding get_health_status
  get_health_status_iff now s = elim (Bool-cases (runs docker s.host s.pool.manager_id)) [
    | inl b ↦ rw b (worker_health-all_run now s.host 0 s.pool.worker_ids)
    | inr b ↦ rw b refl
  ]
