-- ===== src/EniNode/Configure.antt =====
-- internal/ec2provider/eninode.go: Configure, which fills the node object that Kubernetes is told.
use aws_virtual_kubelet.Base.{ℕ, String, List, [], ◌∷◌, Option, none, some, Table}
use aws_virtual_kubelet.Utils.Text.{to_lower}
use aws_virtual_kubelet.Cloud.{Env, Result, ok}
use aws_virtual_kubelet.Process.{Go, ◌>>=◌, pure, panic, get}
use aws_virtual_kubelet.EniNode.{EniNode}

-- `corev1.NodeCondition`; the reason and the message are those of a node that is ready.
pub record NodeCondition : Type 0 where
  pub condition_type : String
  pub status : String
  pub last_heartbeat_time : ℕ
  pub last_transition_time : ℕ
  pub reason : String
  pub message : String

pub record NodeSystemInfo : Type 0 where
  pub kubelet_version : String
  pub operating_system : String
  pub architecture : String

-- `corev1.NodeStatus` over the quantities `Q` of the Kubernetes library.
pub record NodeStatus (Q : Type 0) : Type 0 where
  pub capacity : Table Q
  pub allocatable : Table Q
  pub conditions : List NodeCondition
  pub addresses : List String
  pub node_info : NodeSystemInfo

-- `corev1.Node`, with its annotations for all that is not written.
pub record Node (Q : Type 0) : Type 0 where
  pub name : String
  pub labels : Table String
  pub annotations : Table String
  pub status : NodeStatus Q

abbrev default_operating_system : String
default_operating_system = "Linux"

abbrev default_cpu_capacity : String
default_cpu_capacity = "20"

abbrev default_memory_capacity : String
default_memory_capacity = "40Gi"

abbrev default_storage_capacity : String
default_storage_capacity = "40Gi"

abbrev default_pod_capacity : String
default_pod_capacity = "200"

unfoldable pub node_labels : EniNode → Table String
unfolding to_lower
node_labels en =
    ("type", "virtual-kubelet")
    ∷ ("kubernetes.io/role", "agent")
    ∷ ("beta.kubernetes.io/os", to_lower default_operating_system)
    ∷ ("kubernetes.io/hostname", en.hostname)
    ∷ ("alpha.service-controller.kubernetes.io/exclude-balancer", "true")
    ∷ []

unfoldable pub ready_condition : ℕ → ℕ → String → String → NodeCondition
ready_condition heartbeat transition condition_type status = record {
  condition_type = condition_type;
  status = status;
  last_heartbeat_time = heartbeat;
  last_transition_time = transition;
  reason = "Virtual Kubelet is ready";
  message = "ok";
}

unfoldable pub ready_conditions : ℕ → ℕ → List NodeCondition
unfolding ready_condition
ready_conditions heartbeat transition =
    ready_condition heartbeat transition "Ready" "True"
    ∷ ready_condition heartbeat transition "PIDPressure" "False"
    ∷ ready_condition heartbeat transition "MemoryPressure" "False"
    ∷ ready_condition heartbeat transition "DiskPressure" "False"
    ∷ ready_condition heartbeat transition "NetworkUnavailable" "False"
    ∷ ready_condition heartbeat transition "KubeletConfigOk" "True"
    ∷ []

-- `parse_quantity` is the parser of the Kubernetes library.
module _ {W Q : Type 0} (parse_quantity : String → Option Q) where
  -- `resource.MustParse`, which panics where the text is no quantity
  unfoldable pub must_parse : String → Go W Q
  must_parse text = elim (parse_quantity text) [ none ↦ panic "cannot parse" | some q ↦ pure q ]

  unfoldable pub default_capacity : Go W (Table Q)
  unfolding must_parse
  default_capacity = do
    cpu ← must_parse default_cpu_capacity
    memory ← must_parse default_memory_capacity
    storage ← must_parse default_storage_capacity
    pods ← must_parse default_pod_capacity
    pure (("cpu", cpu) ∷ ("memory", memory) ∷ ("storage", storage) ∷ ("pods", pods) ∷ [])

-- The status that `Configure` writes.
unfoldable pub node_status : {Q : Type 0} → Table Q → ℕ → ℕ → NodeStatus Q
unfolding ready_conditions
node_status capacity heartbeat transition = record {
  capacity = capacity;
  allocatable = capacity;
  conditions = ready_conditions heartbeat transition;
  addresses = [];
  node_info = record {
    kubelet_version = "";
    operating_system = default_operating_system;
    architecture = "amd64";
  };
}

module _ {W Q : Type 0} ⦃env : Env W⦄ (parse_quantity : String → Option Q) where
  -- `Configure`
  unfoldable pub configure : EniNode → Node Q → Go W (Result (Node Q))
  unfolding default_capacity node_labels node_status
  configure en k8s_node = do
    capacity ← default_capacity parse_quantity
    s ← get
    pure (
        ok (record k8s_node {
          name = en.name;
          labels = node_labels en;
          status = node_status capacity (env.now s.world) en.last_transition_time;
        }))
