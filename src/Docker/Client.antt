-- ===== src/Docker/Client.antt =====
-- The methods of the docker client that internal/adapters call, over the states of a docker host, with what
-- the code relies on: which containers are there. The client is a package that the source only calls.
use devops_platform.Base.{
  ℕ, ◌≡◌, refl, ap, arith, inl, inr, Bool-cases, Bool, true, false, String, List, [], ◌∷◌, Option,
  Map, ◌==◌, string_eq, if◌then◌else◌, Result, ok, err,
}

-- container.Config, HostConfig and NetworkingConfig, as far as the source sets them: an image, the name of
-- the host, the environment, the labels, the bound ports, the limits, the policy of restarts, and the
-- networks.
pub record HostConfig : Type 0 where
  pub port_bindings : Map String (List (String × String))
  pub memory : ℕ
  pub cpu_count : ℕ
  pub restart_policy : String

pub record ContainerConfig : Type 0 where
  pub hostname : String
  pub image : String
  pub env : List String
  pub exposed_ports : List String
  pub labels : Map String String

-- A call of ContainerCreate.
pub record Creation : Type 0 where
  pub config : ContainerConfig
  pub host_config : Option HostConfig
  pub networks : List String
  pub name : String

-- What ContainerInspect tells: whether the container runs, its address in each network, and the host ports
-- of its bindings.
pub record Inspection : Type 0 where
  pub is_running : Bool
  pub addresses : Map String String
  pub host_ports : List String

-- types.Network
pub record Network : Type 0 where
  pub id : String
  pub name : String

-- `list` gives the public ports of each container.
pub record Docker (D : Type 0) : Type 0 where
  pub create : Creation → D → Result String × D
  pub start : String → D → Result (Unit {0}) × D
  pub remove : String → D → Result (Unit {0}) × D
  pub inspect : String → D → Result Inspection
  pub list : D → Result (List (List ℕ))
  pub network_list : D → Result (List Network)
  pub network_create : String → D → Result String × D
  pub network_remove : String → D → Result (Unit {0}) × D

abbrev pub without : String → List String → List String
without id [] = []
without id (x ∷ xs) = let rest = without id xs in if x == id then rest else x ∷ rest

abbrev pub is_in : String → List String → Bool
is_in id [] = false
is_in id (x ∷ xs) = if x == id then true else is_in id xs

-- The containers of the host, in any order: a create that succeeds adds one with a new identifier, a remove
-- that succeeds takes it away, and nothing else changes them. Networks are apart.
pub record IsDockerHost {D : Type 0} (docker : Docker D) (containers : D → List String)
    : Type 0 where
  pub create-new :
      (c : Creation) (d : D) {id : String}
      → (docker.create c d).0 ≡ ok id
      → (containers (docker.create c d).1 ≡ id ∷ containers d) × (is_in id (containers d) ≡ false)
  pub create-fails :
      (c : Creation) (d : D) {e : String}
      → (docker.create c d).0 ≡ err e
      → containers (docker.create c d).1 ≡ containers d
  pub start-keeps : (id : String) (d : D) → containers (docker.start id d).1 ≡ containers d
  pub remove-takes :
      (id : String) (d : D)
      → (docker.remove id d).0 ≡ ok tt
      → containers (docker.remove id d).1 ≡ without id (containers d)
  pub network_create-keeps :
      (name : String) (d : D) → containers (docker.network_create name d).1 ≡ containers d
  pub network_remove-keeps :
      (id : String) (d : D) → containers (docker.network_remove id d).1 ≡ containers d

pub without-new : (id : String) (ids : List String) → is_in id ids ≡ false → without id ids ≡ ids
without-new id [] h = refl
without-new id (x ∷ xs) h = elim (Bool-cases (x == id)) [
  | inl b ↦ absurd (ground arith)
  | inr b ↦ rw b (ap (λ l. x ∷ l) (without-new id xs (ground arith)))
]
