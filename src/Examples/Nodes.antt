-- ===== src/Examples/Nodes.antt =====
-- The theorems about the name of a node, each applied at a concrete process.
use aws_virtual_kubelet.EniNode.{EniNode}
use aws_virtual_kubelet.Scenario.{small_env}

abbrev pub fargate : EniNode
fargate = record {
  name = "fargate-ip-10-0-0-9";
  hostname = "fargate-ip-10-0-0-9";
  last_transition_time = 0;
}
