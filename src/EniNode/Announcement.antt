-- ===== src/EniNode/Announcement.antt =====
-- GetOrCreateEniNode and Configure: the node object that Kubernetes is told.
use aws_virtual_kubelet.Base.{
  String, str_eq, List, [], ◌∷◌, Option, some, ◌≡◌, refl, ap, if◌then◌else◌, lookup, All, arith,
}
use aws_virtual_kubelet.Cloud.{Env, ok}
use aws_virtual_kubelet.Process.{Process, done}
use aws_virtual_kubelet.EniNode.{EniNode, get_or_create_eni_node}
use aws_virtual_kubelet.EniNode.Configure.{
  Node, NodeCondition, configure, default_capacity, must_parse, node_labels, node_status,
  ready_conditions,
}

-- The types of the conditions with a status, in their order.
abbrev pub types_with : String → List NodeCondition → List String
types_with status [] = []
types_with status (c ∷ conditions) =
    let rest = types_with status conditions in
    if str_eq c.status status then c.condition_type ∷ rest else rest

-- What Kubernetes sees of a node object that was `before` without it.
pub record Announced {Q : Type 0} (en : EniNode) (before node : Node Q) : Type 0 where
  pub name : node.name ≡ en.name
  pub hostname : lookup "kubernetes.io/hostname" node.labels ≡ some en.name
  pub annotations : node.annotations ≡ before.annotations
  pub allocatable : node.status.allocatable ≡ node.status.capacity
  pub holding : types_with "True" node.status.conditions ≡ "Ready" ∷ "KubeletConfigOk" ∷ []
  pub failing :
      types_with "False" node.status.conditions
      ≡ "PIDPressure" ∷ "MemoryPressure" ∷ "DiskPressure" ∷ "NetworkUnavailable" ∷ []
  pub since : All (λ c. c.last_transition_time ≡ en.last_transition_time) node.status.conditions

module _ {W Q : Type 0} ⦃env : Env W⦄ (parse_quantity : String → Option Q) where
  same_names :
      (vk_pod_name : String) (s t : Process W) (en : EniNode)
      → get_or_create_eni_node vk_pod_name s ≡ done (ok en) t
      → en.hostname ≡ en.name
  unfolding get_or_create_eni_node
  same_names vk_pod_name s t en e = ground arith

  -- If the Kubernetes library parses the default quantities, Configure of a node that
  -- GetOrCreateEniNode has returned returns no error and changes nothing of the process: the object
  -- has the node's name as its name and its host name, keeps its annotations, offers all its
  -- capacity, and of its conditions Ready and KubeletConfigOk hold and no other, since the node was
  -- named.
  configure-Announced :
      (vk_pod_name : String) (s t : Process W) (en : EniNode) (before : Node Q)
      → get_or_create_eni_node vk_pod_name s ≡ done (ok en) t
      → (cpu size pods : Q) → parse_quantity "20" ≡ some cpu
      → parse_quantity "40Gi" ≡ some size
      → parse_quantity "200" ≡ some pods
      → (node : Node Q) × (configure parse_quantity en before t ≡ done (ok node) t)
        × Announced en before node
  unfolding configure default_capacity must_parse node_labels node_status ready_conditions lookup
  configure-Announced vk_pod_name s t en before e cpu size pods parsed_cpu parsed_size parsed_pods =
      (
        record before {
          name = en.name;
          labels = node_labels en;
          status =
              node_status
                (("cpu", cpu) ∷ ("memory", size) ∷ ("storage", size) ∷ ("pods", pods) ∷ [])
                (env.now t.world) en.last_transition_time;
        },
        ground arith,
        record {
          name = refl;
          hostname = ap some (same_names vk_pod_name s t en e);
          annotations = refl;
          allocatable = refl;
          holding = refl;
          failing = refl;
          since = (refl, (refl, (refl, (refl, (refl, (refl, tt))))));
        },
      )
