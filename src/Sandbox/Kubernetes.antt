-- ===== src/Sandbox/Kubernetes.antt =====
-- internal/adapters/sandbox/kubernetes_sandbox.go: the kubernetes sandbox service, over a cluster: its client,
-- and its quantities, are packages that the source only calls.
use devops_platform.Base.{
  ℕ, ◌≡◌, refl, ◌∙◌, ap, sym, Bool, not, String, concat, List, [], ◌∷◌, map, Option, none, some,
  Map, lookup, ◌==◌, string_eq, if◌then◌else◌, Result, ok, err, panic, bind, map_err,
}
use devops_platform.Task.Defs.{SandboxConfig}
use devops_platform.Sandbox.Factory.{KubernetesConfig}
use devops_platform.Docker.Texts.{parse_int}

pub record KubernetesSandbox : Type 0 where
  pub namespace : String

-- corev1.EnvVar
pub record EnvVar : Type 0 where
  pub name : String
  pub value : String

-- The variables in the order of the range over their map.
unfoldable pub map_to_env_vars_k8s : Map String String → List EnvVar
map_to_env_vars_k8s [] = []
map_to_env_vars_k8s ((key, value) ∷ rest) =
    record { name = key; value = value } ∷ map_to_env_vars_k8s rest

-- The pod of a sandbox: its labels and its one container, whose port is 50051.
pub record Pod (Q : Type 0) : Type 0 where
  pub labels : Map String String
  pub image : String
  pub env : List EnvVar
  pub working_dir : String
  pub memory : Q
  pub cpu : ℕ

-- `parse` is resource.MustParse, which panics at a text that is no quantity; `create` gives the address of
-- the new pod, and `list` those of the pods with this label.
pub record Cluster (K Q : Type 0) : Type 0 where
  pub parse : String → Option Q
  pub create : String → Pod Q → K → Result String × K
  pub delete : String → String → K → Result (Unit {0}) × K
  pub list : String → String × String → K → Result (List String)

-- NewKubernetesContainerSandboxService, on what InClusterConfig, url.Parse and NewForConfig answer.
unfoldable pub new_kubernetes_sandbox :
    KubernetesConfig
    → Result (Unit {0})
    → (String → Result (Unit {0}))
    → (Bool → Bool → Result (Unit {0}))
    → Result KubernetesSandbox
new_kubernetes_sandbox config in_cluster parse_url connect =
    bind (map_err (concat "failed to create in-cluster config: ") in_cluster) λ u.
      bind
        (if config.proxy == ""
          then ok tt
          else map_err (concat "invalid proxy URL: ") (parse_url config.proxy))
        λ u.
          bind
            (map_err (concat "failed to create Kubernetes client: ")
              (connect (not (config.proxy == "")) config.skip_ssl))
            λ u. ok (record { namespace = config.namespace })

-- parseCPU, of a number of int64
unfoldable pub parse_cpu : String → Result ℕ
parse_cpu cpu = map_err (concat "failed to parse CPU: ") (parse_int cpu)

-- The labels of a pod, and the selector of the list.
abbrev pub pod_labels : Map String String
pod_labels = ("app", "containerdomain") ∷ []

abbrev pub selector : String × String
selector = ("app", "containersandbox")

abbrev pub with_port : String → String
with_port ip = concat ip ":50051"

module _ {K Q : Type 0} (cluster : Cluster K Q) where
  abbrev pub parse_memory_k8s : String → Result Q
  parse_memory_k8s memory = elim (cluster.parse memory) [ some q ↦ ok q | none ↦ panic ]

  abbrev pub pod_from : SandboxConfig → Result ℕ → Result Q → Result (Pod Q)
  pod_from config (ok cpu) (ok memory) = ok (record {
    labels = pod_labels;
    image = config.image;
    env = map_to_env_vars_k8s config.env_vars;
    working_dir = config.working_dir;
    memory = memory;
    cpu = cpu;
  })
  pod_from config (ok cpu) (err e) = err e
  pod_from config (ok cpu) panic = panic
  pod_from config (err e) memory = err (concat "failed to parse CPU: " e)
  pod_from config panic memory = panic

  -- The memory is read only after the CPU.
  unfoldable pub pod_of : SandboxConfig → Result (Pod Q)
  unfolding parse_cpu
  pod_of config =
      pod_from config (parse_cpu config.resources.cpu) (parse_memory_k8s config.resources.memory)

  abbrev pub addressed : Result String × K → Result String × K
  addressed (ok ip, k) = (ok (with_port ip), k)
  addressed (err e, k) = (err (concat "failed to create pod: " e), k)
  addressed (panic, k) = (panic, k)

  unfoldable pub create_pod_sandbox : KubernetesSandbox → SandboxConfig → K → Result String × K
  unfolding pod_of
  create_pod_sandbox s config k = elim (pod_of config) [
    | ok pod ↦ addressed (cluster.create s.namespace pod k)
    | err e ↦ (err e, k)
    | panic ↦ (panic, k)
  ]

  unfoldable pub delete_pod_sandbox : KubernetesSandbox → String → K → Result (Unit {0}) × K
  delete_pod_sandbox s id k = cluster.delete s.namespace id k

  unfoldable pub list_pod_sandboxes : KubernetesSandbox → K → Result (List String)
  list_pod_sandboxes s k = bind (cluster.list s.namespace selector k) λ ips. ok (map with_port ips)

-- The addresses of the pods with a label.
abbrev pub selected : {Q : Type 0} → String × String → List (Pod Q × String) → List String
selected label [] = []
selected (key, value) ((pod, ip) ∷ pods) =
    let rest = selected (key, value) pods in
    elim (lookup key pod.labels) [ some v ↦ if v == value then ip ∷ rest else rest | none ↦ rest ]

-- What the code relies on: a create that succeeds adds its pod, and a list gives the pods with its label.
pub record IsCluster {K Q : Type 0} (cluster : Cluster K Q)
    (pods : String → K → List (Pod Q × String)) : Type 0 where
  pub create-adds :
      (namespace : String) (pod : Pod Q) (k : K) {ip : String}
      → (cluster.create namespace pod k).0 ≡ ok ip
      → (address : String) × (pods namespace (cluster.create namespace pod k).1
          ≡ (pod, address) ∷ pods namespace k)
  pub list-selects :
      (namespace : String) (label : String × String) (k : K)
      → cluster.list namespace label k ≡ ok (selected label (pods namespace k))

module _ {K Q : Type 0} (cluster : Cluster K Q) {pods : String → K → List (Pod Q × String)}
    (laws : IsCluster cluster pods) where
  -- The pods that the service makes do not have the label that it lists.
  created-unlisted :
      (namespace : String) (pod : Pod Q) (k : K) (ip : String)
      → pod.labels ≡ pod_labels
      → (cluster.create namespace pod k).0 ≡ ok ip
      → cluster.list namespace selector (cluster.create namespace pod k).1
        ≡ cluster.list namespace selector k
  unfolding lookup
  created-unlisted namespace pod k ip l e =
      let (address, all) = laws.create-adds namespace pod k e in
      let others = selected selector (pods namespace k) in
      laws.list-selects namespace selector (cluster.create namespace pod k).1
      ∙ ap (λ ps. ok (selected selector ps)) all
      ∙ rw l refl
      ∙ sym (laws.list-selects namespace selector k)

  pod_from-labels :
      (config : SandboxConfig) (cpu : Result ℕ) (memory : Result Q) (pod : Pod Q)
      → pod_from cluster config cpu memory ≡ ok pod
      → pod.labels ≡ pod_labels
  pod_from-labels config (ok cpu) (ok memory) pod h =
      ap (λ r. elim r as (λ _. Map String String) [ ok p ↦ p.labels | err e ↦ [] | panic ↦ [] ])
        (sym h)
  pod_from-labels config (ok cpu) (err e) pod h = absurd cc
  pod_from-labels config (ok cpu) panic pod h = absurd cc
  pod_from-labels config (err e) memory pod h = absurd cc
  pod_from-labels config panic memory pod h = absurd cc

  -- On a cluster where a create adds its pod and a list gives the pods with its label, a sandbox that is
  -- created is never listed: after CreateContainerSandbox succeeds, ListContainerSandboxes answers what it
  -- answered before.
  pub list-create_pod_sandbox :
      (s : KubernetesSandbox) (config : SandboxConfig) (k : K) (id : String)
      → (create_pod_sandbox cluster s config k).0 ≡ ok id
      → list_pod_sandboxes cluster s (create_pod_sandbox cluster s config k).1
        ≡ list_pod_sandboxes cluster s k
  unfolding create_pod_sandbox list_pod_sandboxes pod_of
  list-create_pod_sandbox s config k id = by_pod (pod_of cluster config) refl
    where
      listed : Result (List String) → Result (List String)
      listed r = bind r λ ips. ok (map with_port ips)

      by_created :
          (pod : Pod Q)
          → pod.labels ≡ pod_labels
          → (r : Result String × K) → cluster.create s.namespace pod k ≡ r
          → (addressed cluster r).0 ≡ ok id
          → list_pod_sandboxes cluster s (addressed cluster r).1 ≡ list_pod_sandboxes cluster s k
      by_created pod l (ok ip, k') e h =
          ap (λ r. listed (cluster.list s.namespace selector r.1)) (sym e)
          ∙ ap listed (created-unlisted s.namespace pod k ip l (ap (λ r. r.0) e))
      by_created pod l (err x, k') e h = absurd cc
      by_created pod l (panic, k') e h = absurd cc

      by_pod :
          (r : Result (Pod Q))
          → pod_of cluster config ≡ r
          → let made = elim r as (λ _. Result String × K) [
            | ok pod ↦ addressed cluster (cluster.create s.namespace pod k)
            | err e ↦ (err e, k)
            | panic ↦ (panic, k)
          ] in
            made.0 ≡ ok id → list_pod_sandboxes cluster s made.1 ≡ list_pod_sandboxes cluster s k
      by_pod (ok pod) e h =
          by_created pod (pod_from-labels config _ _ pod e) (cluster.create s.namespace pod k) refl
            h
      by_pod (err x) e h = absurd cc
      by_pod panic e h = absurd cc
