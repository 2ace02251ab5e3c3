-- ===== src/Awsutils/Interfaces.antt =====
-- internal/awsutils/ec2_utils.go: the network interfaces that stand for nodes.
use aws_virtual_kubelet.Base.{String, str_append, str_eq, List, [], ◌∷◌, if◌then◌else◌}
use aws_virtual_kubelet.Metrics.{describe_eni_errors, create_eni_errors, delete_eni_errors}
use aws_virtual_kubelet.Cloud.{Env, Result, ok, err, NetworkInterface}
use aws_virtual_kubelet.Process.{Go, ◌>>=◌, ◌>>◌, pure, call, inc}

-- The loop of `GetNetworkInterfaceByTagName`: the last of the interfaces found, or empty texts.
unfoldable pub last_interface : String × String → List NetworkInterface → String × String
last_interface out [] = out
last_interface out (r ∷ rs) = last_interface (r.private_dns_name, r.network_interface_id) rs

module _ {W : Type 0} ⦃env : Env W⦄ where
  -- `GetNetworkInterfaceByTagName`
  unfoldable pub get_network_interface_by_tag_name : String → Go W (Result (String × String))
  get_network_interface_by_tag_name tag_value = do
    result ←
        call
          (env.describe_network_interfaces (record { name = "tag:Name"; values = tag_value ∷ [] }))
    elim result [
      | err e ↦ do
        inc describe_eni_errors
        pure (err (str_append e (str_append " , Input tagValue :" tag_value)))
      | ok interfaces ↦ pure (ok (last_interface ("", "") interfaces))
    ]

  -- `CreateNetworkInterface`
  unfoldable pub create_network_interface : String → String → Go W (Result (String × String))
  create_network_interface tag_value subnet_id = do
    result ← call (
        env.create_network_interface tag_value subnet_id
          (record { key = "Name"; value = tag_value } ∷ []))
    elim result [
      | err e ↦ do
        inc create_eni_errors
        pure (
            err (
              str_append "unable to create Network Interface , tag : "
                (str_append tag_value (str_append ", " e))))
      | ok interface ↦ pure (ok (interface.private_dns_name, interface.network_interface_id))
    ]

  -- the end of `DeleteNetworkInterface`, with the id that was found
  unfoldable pub delete_found_interface : String → Go W (Result (Unit {0}))
  delete_found_interface eni_id = if str_eq eni_id "" then pure (ok tt) else do
    result ← call (env.delete_network_interface eni_id)
    elim result [
      | err _ ↦ do
        inc delete_eni_errors
        pure (err (str_append "unable to delete Network Interface : " eni_id))
      | ok _ ↦ pure (ok tt)
    ]

  -- `DeleteNetworkInterface`
  unfoldable pub delete_network_interface : String → Go W (Result (Unit {0}))
  unfolding delete_found_interface get_network_interface_by_tag_name
  delete_network_interface tag_value = do
    found ← get_network_interface_by_tag_name tag_value
    elim found [
      | err e ↦ pure (
          err (
            str_append "Problem finding the eni id for tag ="
              (str_append tag_value (str_append " " e))))
      | ok (_, eni_id) ↦ delete_found_interface eni_id
    ]
