-- ===== src/EniNode/Names.antt =====
-- getOrCreateNodeName: which name a node gets.
use aws_virtual_kubelet.Base.{◌≡◌, ◌≢◌, String, str_append, [], ◌∷◌, eq_iff, arith}
use aws_virtual_kubelet.Cloud.{Env, ok, err, NetworkInterface}
use aws_virtual_kubelet.Metrics.{create_eni_errors}
use aws_virtual_kubelet.Process.{Process, done, after}
use aws_virtual_kubelet.Awsutils.Interfaces.{last_interface}
use aws_virtual_kubelet.EniNode.{get_or_create_node_name}

module _ {W : Type 0} ⦃env : Env W⦄ (tag subnet : String) (s : Process W) (tag_set : tag ≢ "")
    (subnet_set : subnet ≢ "") where
  -- If EC2 knows one interface with the tag, whose name is not empty, the node is named after it: a
  -- process that is started again gets the name that it had, and nothing but the world changes.
  pub get_or_create_node_name-found :
      (i : NetworkInterface)
      → i.private_dns_name ≢ ""
      → (env.describe_network_interfaces
          (record { name = "tag:Name"; values = tag ∷ [] })
          s.world).0
        ≡ ok (i ∷ [])
      → get_or_create_node_name tag subnet s
        ≡ done (ok (str_append "fargate-" i.private_dns_name)) (record s {
          world =
              (env.describe_network_interfaces
                (record { name = "tag:Name"; values = tag ∷ [] })
                s.world).1;
        })
  unfolding get_or_create_node_name last_interface
  get_or_create_node_name-found i named found =
      ground (arith, eq_iff tag "", eq_iff subnet "", eq_iff i.private_dns_name "")

  -- If EC2 knows no interface with the tag and then creates none, a name is returned all the same,
  -- and no error: that of a node with no address, the same for all processes in this state.
  pub get_or_create_node_name-unnamed :
      (e : String)
      → let searched =
          env.describe_network_interfaces
            (record { name = "tag:Name"; values = tag ∷ [] })
            s.world in
        searched.0 ≡ ok []
        → (env.create_network_interface tag subnet
            (record { key = "Name"; value = tag } ∷ [])
            searched.1).0
          ≡ err e
        → let t = after (get_or_create_node_name tag subnet s) in
          (get_or_create_node_name tag subnet s ≡ done (ok "fargate-") t)
          × (t.metrics ≡ create_eni_errors ∷ s.metrics)
  unfolding get_or_create_node_name last_interface
  get_or_create_node_name-unnamed e none_found refused =
      ground (arith, eq_iff tag "", eq_iff subnet "")
