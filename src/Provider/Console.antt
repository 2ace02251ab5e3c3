-- ===== src/Provider/Console.antt =====
-- internal/ec2provider/ec2provider.go and eninode.go: what the provider answers to the node's server,
-- and how it reads its command line.
use aws_virtual_kubelet.Base.{String, str_eq, List, [], ◌∷◌, Option, none, some, if◌then◌else◌}
use aws_virtual_kubelet.Cloud.{Env, Result, ok, err}
use aws_virtual_kubelet.Process.{Go, ◌>>=◌, pure, panic}
use aws_virtual_kubelet.EniNode.{EniNode}
use aws_virtual_kubelet.EniNode.Configure.{Node, configure}

-- `errdefs.NotFound`
abbrev not_found : {A : Type 0} → Result A
not_found = err "Not yet implemented"

-- `GetContainerLogs`, `RunInContainer` and `GetStatsSummary`; streams and statistics are left out, as
-- there are none.
unfoldable pub get_container_logs : String → String → String → Result (Unit {0})
get_container_logs namespace pod_name container_name = not_found

unfoldable pub run_in_container : String → String → String → List String → Result (Unit {0})
run_in_container namespace pod_name container_name cmd = not_found

unfoldable pub get_stats_summary : Result (Unit {0})
get_stats_summary = not_found

-- The texts that `updateVerbosityLevel` hands to the flag of klog, in their order; none if it reads
-- behind the last argument, which panics.
unfoldable pub verbosity_levels : List String → Option (List String)
verbosity_levels [] = some []
verbosity_levels (arg ∷ []) = if str_eq arg "--klog.v" then none else some []
verbosity_levels (arg ∷ level ∷ args) =
    let rest = verbosity_levels (level ∷ args) in
    if str_eq arg "--klog.v"
    then elim rest [ none ↦ none | some levels ↦ some (level ∷ levels) ]
    else rest

module _ {W Q : Type 0} ⦃env : Env W⦄ (parse_quantity : String → Option Q) where
  -- `ConfigureNode` changes the node in place; an error is logged, and leaves it as it was.
  unfoldable pub configure_node : EniNode → Node Q → Go W (Node Q)
  unfolding configure
  configure_node en node = do
    configured ← configure parse_quantity en node
    elim configured [ err _ ↦ pure node | ok changed ↦ pure changed ]

module _ {W : Type 0} where
  -- `Ping` and `NotifyNodeStatus` of the node
  unfoldable pub ping : EniNode → Go W (Unit {0})
  ping en = panic "What should this do? Check that ENI exists and/or is reachable?"

  unfoldable pub notify_node_status : EniNode → Go W (Unit {0})
  notify_node_status en =
      panic "Save the passed-in callback and use it to notify VK of any node status changes"
