-- ===== src/Awsutils/Frame.antt =====
-- The calls of internal/awsutils leave the provider's own state alone.
use aws_virtual_kubelet.Base.{ℕ, String, arith}
use aws_virtual_kubelet.Cloud.{Env}
use aws_virtual_kubelet.Process.{after}
use aws_virtual_kubelet.Process.Frame.{Keeps}
use aws_virtual_kubelet.Process.{Process}
use aws_virtual_kubelet.Awsutils.UserData.{new_client, generate_vkvm_user_data}
use aws_virtual_kubelet.Awsutils.Instances.{create_ec2, terminate_ec2, get_private_ip}

module _ {W : Type 0} ⦃env : Env W⦄ (q : ℕ) (s : Process W) where
  pub new_client-Keeps : Keeps q s (after (new_client s))
  unfolding new_client
  new_client-Keeps = ground arith

  pub terminate_ec2-Keeps : (id : String) → Keeps q s (after (terminate_ec2 id s))
  unfolding terminate_ec2
  terminate_ec2-Keeps id = ground arith

  pub get_private_ip-Keeps : (id : String) → Keeps q s (after (get_private_ip id s))
  unfolding get_private_ip
  get_private_ip-Keeps id = ground arith

  pub create_ec2-Keeps : (pod : ℕ) (u : String) → Keeps q s (after (create_ec2 pod u s))
  unfolding create_ec2
  create_ec2-Keeps pod u = ground arith

  pub generate_vkvm_user_data-Keeps :
      (a b c d : String) → Keeps q s (after (generate_vkvm_user_data a b c d s))
  unfolding generate_vkvm_user_data
  generate_vkvm_user_data-Keeps a b c d = ground arith
