-- ===== src/Compute/Frame.antt =====
-- Getting and deleting compute leave the cache, the monitors and the notifications alone.
use aws_virtual_kubelet.Base.{ℕ, Bool, true, false, arith}
use aws_virtual_kubelet.Cloud.{Env}
use aws_virtual_kubelet.Process.{Process, after}
use aws_virtual_kubelet.Process.Frame.{Keeps, Keeps-refl, >>=-Keeps}
use aws_virtual_kubelet.Awsutils.Frame.{
  generate_vkvm_user_data-Keeps, create_ec2-Keeps, get_private_ip-Keeps, terminate_ec2-Keeps,
}
use aws_virtual_kubelet.WarmPool.Frame.{
  update_ec2_tags-Keeps, get_warm_pool_instance_if_exist-Keeps,
}
use aws_virtual_kubelet.Compute.{
  pod_has_instance, create_compute, get_warm_compute, choose_compute, get_compute, delete_compute,
}

module _ {W : Type 0} ⦃env : Env W⦄ (q : ℕ) where
  pub pod_has_instance-Keeps :
      (pod : ℕ) (s : Process W) → Keeps q s (after (pod_has_instance pod s))
  unfolding pod_has_instance
  pod_has_instance-Keeps pod s = ground arith

  pub delete_compute-Keeps : (pod : ℕ) (s : Process W) → Keeps q s (after (delete_compute pod s))
  unfolding delete_compute
  delete_compute-Keeps pod s = grind (arith, terminate_ec2-Keeps q)

  pub create_compute-Keeps : (pod : ℕ) (s : Process W) → Keeps q s (after (create_compute pod s))
  unfolding create_compute
  create_compute-Keeps pod s =
      grind (arith, generate_vkvm_user_data-Keeps q, create_ec2-Keeps q, get_private_ip-Keeps q)

  pub get_warm_compute-Keeps :
      (pod : ℕ) (s : Process W) → Keeps q s (after (get_warm_compute pod s))
  unfolding get_warm_compute
  get_warm_compute-Keeps pod s =
      grind (arith, get_warm_pool_instance_if_exist-Keeps q, update_ec2_tags-Keeps q)

  pub choose_compute-Keeps :
      (pod : ℕ) (has_instance : Bool) (s : Process W)
      → Keeps q s (after (choose_compute pod has_instance s))
  unfolding choose_compute
  choose_compute-Keeps pod true s = Keeps-refl q s
  choose_compute-Keeps pod false s =
      ground (arith, get_warm_compute-Keeps pod s, create_compute-Keeps pod s)

  -- Whatever comes of it, and wherever the instance is from.
  pub get_compute-Keeps : (pod : ℕ) (s : Process W) → Keeps q s (after (get_compute pod s))
  unfolding get_compute
  get_compute-Keeps pod s =
      >>=-Keeps (pod_has_instance pod) (choose_compute pod) s (pod_has_instance-Keeps pod s)
        (choose_compute-Keeps pod)
