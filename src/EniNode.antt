-- ===== src/EniNode.antt =====
-- internal/ec2provider/eninode.go: the name of the node, that of a network interface.
pub mod Names
pub mod Configure
pub mod Announcement
use aws_virtual_kubelet.Base.{ℕ, String, str_append, str_eq, Bool, ◌||◌, if◌then◌else◌}
use aws_virtual_kubelet.Metrics.{node_name_errors}
use aws_virtual_kubelet.Cloud.{Env, Result, ok, err}
use aws_virtual_kubelet.Process.{Go, ◌>>=◌, ◌>>◌, pure, get, call, inc}
use aws_virtual_kubelet.Awsutils.UserData.{new_client}
use aws_virtual_kubelet.Awsutils.Interfaces.{
  get_network_interface_by_tag_name, create_network_interface,
}

pub record EniNode : Type 0 where
  pub name : String
  pub hostname : String
  pub last_transition_time : ℕ

-- The value of the Name tag, with the environment's `POD_NAME`, which may be empty.
unfoldable pub eni_tag : String → String → String
eni_tag cluster_name vk_pod_name =
    if str_eq vk_pod_name ""
    then cluster_name
    else str_append cluster_name (str_append "-" vk_pod_name)

-- `privateIP, _, _ = CreateNetworkInterface(...)`: an error leaves the empty text
unfoldable pub address_or_empty : Result (String × String) → String
address_or_empty (ok (private_ip, _)) = private_ip
address_or_empty (err _) = ""

module _ {W : Type 0} ⦃env : Env W⦄ where
  -- The interface is created where none was found.
  unfoldable pub found_or_created : String → String → String → Go W String
  unfolding address_or_empty create_network_interface
  found_or_created tag_value subnet_id private_ip =
      if str_eq private_ip ""
      then (do
        created ← create_network_interface tag_value subnet_id
        pure (address_or_empty created))
      else pure private_ip

  -- the middle of `getOrCreateNodeName`, with the result of the search
  unfoldable pub name_of_found : String → String → Result (String × String) → Go W (Result String)
  unfolding found_or_created
  name_of_found tag_value subnet_id (err e) = do inc node_name_errors; pure (err e)
  name_of_found tag_value subnet_id (ok (private_ip, _)) = do
    address ← found_or_created tag_value subnet_id private_ip
    pure (ok (str_append "fargate-" address))

  -- `getOrCreateNodeName`
  unfoldable pub get_or_create_node_name : String → String → Go W (Result String)
  unfolding get_network_interface_by_tag_name name_of_found
  get_or_create_node_name tag_value subnet_id =
      if str_eq tag_value "" || str_eq subnet_id ""
      then pure (err "Parameters tagValue, subnetId  are required. ")
      else do
        found ← get_network_interface_by_tag_name tag_value
        name_of_found tag_value subnet_id found

  -- `GetOrCreateEniNode`, with the environment's `POD_NAME`
  unfoldable pub get_or_create_eni_node : String → Go W (Result EniNode)
  unfolding eni_tag new_client
  get_or_create_eni_node vk_pod_name = do
    s ← get
    client ← new_client
    elim client [
      | err e ↦ pure (err e)
      | ok _ ↦ do
        created ←
            get_or_create_node_name (eni_tag s.config.cluster_name vk_pod_name)
              s.config.management_subnet
        elim created [
          | err e ↦ pure (err e)
          | ok node_name ↦ do
            t ← get
            pure (
                ok (record {
                  name = node_name;
                  hostname = node_name;
                  last_transition_time = env.now t.world;
                }))
        ]
    ]
