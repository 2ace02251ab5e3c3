-- ===== src/Provider/NodeName.antt =====
-- The name that the warm pool writes into its tags, and asks EC2 for.
use aws_virtual_kubelet.Base.{List, ◌≡◌, ◌∙◌, String, refl, arith}
use aws_virtual_kubelet.Cloud.{Env, ok, err}
use aws_virtual_kubelet.Process.{Process, done}
use aws_virtual_kubelet.Process.Frame.{Returns, Returns-done, >>=-Returns, after-Returns}
use aws_virtual_kubelet.Awsutils.UserData.{new_client}
use aws_virtual_kubelet.EniNode.{EniNode, eni_tag, get_or_create_node_name, get_or_create_eni_node}
use aws_virtual_kubelet.WarmPool.Refresh.{initial_warm_pool_creation}
use aws_virtual_kubelet.WarmPool.Rounds.{initial_warm_pool_creation-Keeps}
use aws_virtual_kubelet.WarmPool.Disjoint.{pool_input}
use aws_virtual_kubelet.Provider.Monitoring.{new_check_handler}
use aws_virtual_kubelet.Provider.Startup.{
  Launch, start_config, new_warm_pool, fill_and_maintain, new_compute_manager, must, equip,
  new_ec2_provider, update_verbosity_level,
}

module _ {W : Type 0} ⦃env : Env W⦄ (name : String) where
  -- The warm pool's name of the node.
  abbrev IsNamed : Process W → Type 0
  IsNamed s = s.node_name ≡ name

  start_config-IsNamed :
      (launch : Launch) (s : Process W) → IsNamed s → Returns IsNamed (start_config launch s)
  unfolding start_config
  start_config-IsNamed launch s h = ground arith

  new_client-IsNamed : (s : Process W) → IsNamed s → Returns IsNamed (new_client s)
  unfolding new_client
  new_client-IsNamed s h = ground arith

  get_or_create_node_name-IsNamed :
      (tag subnet : String) (s : Process W)
      → IsNamed s
      → Returns IsNamed (get_or_create_node_name tag subnet s)
  unfolding get_or_create_node_name
  get_or_create_node_name-IsNamed tag subnet s h = ground arith

  get_or_create_eni_node-IsNamed :
      (pod_name : String) (s : Process W)
      → IsNamed s
      → Returns IsNamed (get_or_create_eni_node pod_name s)
  unfolding get_or_create_eni_node
  get_or_create_eni_node-IsNamed pod_name s h =
      let tag = eni_tag s.config.cluster_name pod_name in
      let subnet = s.config.management_subnet in
      >>=-Returns IsNamed IsNamed new_client _ s (new_client-IsNamed s h) (elim [
        | err e ↦ λ t k. k
        | ok _ ↦ λ t k.
            >>=-Returns IsNamed IsNamed (get_or_create_node_name tag subnet) _ t
              (get_or_create_node_name-IsNamed tag subnet t k)
              (elim [ err e ↦ λ u j. j | ok node_name ↦ λ u j. j ])
      ])

  fill_and_maintain-IsNamed : (s : Process W) → IsNamed s → Returns IsNamed (fill_and_maintain s)
  unfolding fill_and_maintain
  fill_and_maintain-IsNamed s h = ground (
    arith,
    after-Returns IsNamed (initial_warm_pool_creation s)
        ((initial_warm_pool_creation-Keeps 0 s).node_name ∙ h),
  )

  equip-IsNamed : (node : EniNode) (s : Process W) → IsNamed s → Returns IsNamed (equip node s)
  unfolding equip new_warm_pool new_compute_manager must new_client new_check_handler
  equip-IsNamed node s h = grind (arith, fill_and_maintain-IsNamed)

  update_verbosity_level-IsNamed :
      (arguments : List String) (s : Process W)
      → IsNamed s
      → Returns IsNamed (update_verbosity_level arguments s)
  unfolding update_verbosity_level
  update_verbosity_level-IsNamed arguments s h = ground arith

  new_ec2_provider-IsNamed :
      (launch : Launch) (s : Process W) → IsNamed s → Returns IsNamed (new_ec2_provider launch s)
  unfolding new_ec2_provider
  new_ec2_provider-IsNamed launch s h =
      >>=-Returns IsNamed IsNamed (update_verbosity_level launch.arguments) _ s
        (update_verbosity_level-IsNamed launch.arguments s h)
        (λ _ r g.
          >>=-Returns IsNamed IsNamed (start_config launch) _ r (start_config-IsNamed launch r g)
            (λ _ t k.
              >>=-Returns IsNamed IsNamed (get_or_create_eni_node launch.vk_pod_name) _ t
                (get_or_create_eni_node-IsNamed launch.vk_pod_name t k)
                (elim [ err e ↦ λ u j. j | ok n ↦ λ u j. equip-IsNamed n u j ])))

module _ {W : Type 0} ⦃env : Env W⦄ where
  -- NewEc2Provider does not tell the warm pool the name of its node. Two processes of one cluster, of
  -- which neither had a name before, therefore ask EC2 for the same instances, whatever their nodes
  -- are called: each takes the instances of the other for its own.
  pub new_ec2_provider-pool_input :
      (launch launch' : Launch) (s s' t t' : Process W) (node node' : EniNode)
      → s.node_name ≡ ""
      → s'.node_name ≡ ""
      → new_ec2_provider launch s ≡ done (ok node) t
      → new_ec2_provider launch' s' ≡ done (ok node') t'
      → t.config.cluster_name ≡ t'.config.cluster_name
      → pool_input t ≡ pool_input t'
  new_ec2_provider-pool_input launch launch' s s' t t' node node' unnamed unnamed' started started'
        cluster =
      let n : t.node_name ≡ "" =
        Returns-done (λ (u : Process W). u.node_name ≡ "")
          (new_ec2_provider-IsNamed "" launch s unnamed) started in
      let n' : t'.node_name ≡ "" =
        Returns-done (λ (u : Process W). u.node_name ≡ "")
          (new_ec2_provider-IsNamed "" launch' s' unnamed') started' in
      rw (n, n', cluster) refl
