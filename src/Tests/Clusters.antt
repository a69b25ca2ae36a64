-- ===== src/Tests/Clusters.antt =====
-- A kubernetes cluster that keeps its pods, each with an address.
use devops_platform.Base.{ℕ, ◌≡◌, refl, ok, some, String, List, [], ◌∷◌, string_eq}
use devops_platform.Task.Defs.{SandboxConfig, zero_config}
use devops_platform.Docker.Texts.{parse_int, parse_uint, digits_from}
use devops_platform.Sandbox.Kubernetes.{
  KubernetesSandbox, Pod, Cluster, IsCluster, selected, parse_cpu, pod_of, create_pod_sandbox,
  list_pod_sandboxes, list-create_pod_sandbox,
}

abbrev Pods : Type 0
Pods = List (Pod ℕ × String)

abbrev cluster : Cluster Pods ℕ
cluster = record {
  parse = λ text. some 256;
  create = λ namespace pod pods. (ok "10.0.0.9", (pod, "10.0.0.9") ∷ pods);
  delete = λ namespace id pods. (ok tt, pods);
  list = λ namespace label pods. ok (selected label pods);
}

cluster-IsCluster : IsCluster cluster (λ namespace pods. pods)
cluster-IsCluster = record {
  create-adds = λ namespace pod pods e. ("10.0.0.9", refl);
  list-selects = λ namespace label pods. refl;
}

abbrev sandbox : KubernetesSandbox
sandbox = record { namespace = "default" }

abbrev config : SandboxConfig
config = record zero_config {
  image = "golang";
  resources = record { cpu = "1"; memory = "256Mi"; disk = "" };
}

list-create_pod_sandbox_example :
    list_pod_sandboxes cluster sandbox (create_pod_sandbox cluster sandbox config []).1
    ≡ list_pod_sandboxes cluster sandbox []
unfolding create_pod_sandbox pod_of parse_cpu parse_int parse_uint digits_from
list-create_pod_sandbox_example =
    list-create_pod_sandbox cluster cluster-IsCluster sandbox config [] "10.0.0.9:50051" refl
