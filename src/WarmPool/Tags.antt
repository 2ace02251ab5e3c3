-- ===== src/WarmPool/Tags.antt =====
-- internal/ec2provider/warmpool.go: the tags that keep the state of an instance in EC2.
use aws_virtual_kubelet.Base.{String, str_eq, List, [], ◌∷◌, ◌++◌, if◌then◌else◌}
use aws_virtual_kubelet.Kube.{Pod}
use aws_virtual_kubelet.Metrics.{ec2_tag_creation_errors}
use aws_virtual_kubelet.Cloud.{Env, Result, ok, err, Tag, TagSpecification}
use aws_virtual_kubelet.Process.{Go, ◌>>=◌, ◌>>◌, pure, get, modify, call, inc}

-- The reasons for an update.
abbrev pub set_pod : String
set_pod = "set_pod"

abbrev pub set_ready : String
set_ready = "set_ready"

abbrev pub set_in_use : String
set_in_use = "set_in_use"

abbrev pub set_unhealthy : String
set_unhealthy = "set_unhealthy"

abbrev pub initial_setup : String
initial_setup = "initial_setup"

-- The values of the status tag.
abbrev pub operation_pending_warmpool : String
operation_pending_warmpool = "Operation.PENDING_WARMPOOL_PROVISIONING"

abbrev pub operation_ready : String
operation_ready = "Operation.Ready"

abbrev pub operation_unhealthy : String
operation_unhealthy = "Operation.Unhealthy"

abbrev pub operation_pending_pod : String
operation_pending_pod = "Operation.PENDING_POD_PROVISIONING"

abbrev pub operation_pod_in_use : String
operation_pod_in_use = "Operation.POD_IN_USE"

abbrev pub warmpool_status : String
warmpool_status = "aws-virtual-kubelet/WarmpoolStatus"

abbrev pub warmpool_node_name : String
warmpool_node_name = "aws-virtual-kubelet/WarmpoolNodeName"

abbrev pub warmpool_cluster_name : String
warmpool_cluster_name = "aws-virtual-kubelet/WarmpoolClusterName"

abbrev pub tag : String → String → Tag
tag k v = record { key = k; value = v }

-- `value` after the chain of tests; an unknown reason leaves it empty
unfoldable pub status_value : String → String
status_value reason =
    if str_eq reason initial_setup
    then operation_pending_warmpool
    else if str_eq reason set_ready
    then operation_ready
    else if str_eq reason set_unhealthy
    then operation_unhealthy
    else if str_eq reason set_pod
    then operation_pending_pod
    else if str_eq reason set_in_use
    then operation_pod_in_use
    else ""

-- the tags of the pod, for one reason only
unfoldable pub pod_tags : String → Pod → List Tag
pod_tags reason pod =
    if str_eq reason set_pod
    then tag "aws-virtual-kubelet/WarmpoolPodName" pod.name
      ∷ tag "aws-virtual-kubelet/WarmpoolPodNamespace" pod.namespace
      ∷ tag "aws-virtual-kubelet/WarmpoolPodUID" pod.uid
      ∷ []
    else []

-- The tags of `populateEC2Tags`' one specification.
unfoldable pub warm_pool_tags : String → String → String → Pod → List Tag
unfolding status_value pod_tags
warm_pool_tags node_name cluster_name reason pod =
    pod_tags reason pod
    ++ tag warmpool_node_name node_name
      ∷ tag warmpool_cluster_name cluster_name
      ∷ tag warmpool_status (status_value reason)
      ∷ []

unfoldable pub populate_ec2_tags : String → String → String → Pod → List TagSpecification
unfolding warm_pool_tags
populate_ec2_tags node_name cluster_name reason pod =
    record { resource_type = "instance"; tags = warm_pool_tags node_name cluster_name reason pod }
    ∷ []

-- `SetNodeName`
unfoldable pub set_node_name : {W : Type 0} → String → Go W (Unit {0})
set_node_name node = modify λ s. record s { node_name = node }

module _ {W : Type 0} ⦃env : Env W⦄ where
  -- `updateEC2Tags`
  unfoldable pub update_ec2_tags : String → String → Pod → Go W (Result (Unit {0}))
  update_ec2_tags instance_id reason pod = do
    s ← get
    let tags = warm_pool_tags s.node_name s.config.cluster_name reason pod
    r ← call (env.create_tags (instance_id ∷ []) tags)
    elim r [ err e ↦ do inc ec2_tag_creation_errors; pure (err e) | ok _ ↦ pure (ok tt) ]
