-- ===== src/WarmPool/Frame.antt =====
-- The warm pool changes the world, its own state and the counters, and reads the rest.
use aws_virtual_kubelet.Base.{
  zero, suc, ℕ, String, Bool, false, true, ◌||◌, List, [], ◌∷◌, Option, none, some, inl, inr,
  Bool-cases, arith,
}
use aws_virtual_kubelet.Kube.{Pod}
use aws_virtual_kubelet.Config.{WarmPoolConfig}
use aws_virtual_kubelet.Cloud.{Env, Tag, Instance, DescribeInstancesInput}
use aws_virtual_kubelet.Process.{Process, pure, after}
use aws_virtual_kubelet.Process.Frame.{Keeps, Keeps-refl, Keeps-trans, >>=-Keeps}
use aws_virtual_kubelet.Awsutils.Frame.{generate_vkvm_user_data-Keeps}
use aws_virtual_kubelet.Awsutils.UserData.{ec2_run_instances_util}
use aws_virtual_kubelet.WarmPool.Tags.{update_ec2_tags}
use aws_virtual_kubelet.WarmPool.Launch.{create_warm_ec2_instance, create_warm_ec2}
use aws_virtual_kubelet.WarmPool.Depth.{pop, take_excess}
use aws_virtual_kubelet.WarmPool.Refresh.{
  import_tag, import_tags, import_instances, import_reservations, import_page, import_pages,
  pop_ready, check_ec2_tags_for_state, refresh_warm_pool_from_ec2, get_warm_pool_instance_if_exist,
  with_token, is_some, reset_state,
}

module _ {W : Type 0} ⦃env : Env W⦄ (q : ℕ) where
  pub update_ec2_tags-Keeps :
      (id reason : String) (pod : Pod) (s : Process W)
      → Keeps q s (after (update_ec2_tags id reason pod s))
  unfolding update_ec2_tags
  update_ec2_tags-Keeps id reason pod s = ground arith

  pub create_warm_ec2-Keeps :
      (wpc : WarmPoolConfig) (s : Process W) → Keeps q s (after (create_warm_ec2 wpc s))
  unfolding create_warm_ec2 create_warm_ec2_instance ec2_run_instances_util
  create_warm_ec2-Keeps wpc s = ground (
    arith,
    generate_vkvm_user_data-Keeps q s s.config.bootstrap_agent.s3_bucket
        s.config.bootstrap_agent.s3_key s.config.vm_config.init_data
        s.config.bootstrap_agent.init_data,
  )

  pub take_excess-Keeps : (s : Process W) → Keeps q s (after (take_excess s))
  unfolding take_excess pop
  take_excess-Keeps s = ground arith

  pub import_tag-Keeps :
      (i : Instance) (t : Tag) (s : Process W) → Keeps q s (after (import_tag i t s))
  unfolding import_tag update_ec2_tags
  import_tag-Keeps i t s = ground arith

  import_tags-Keeps :
      (i : Instance) (ts : List Tag) (s : Process W) → Keeps q s (after (import_tags i ts s))
  unfolding import_tags
  import_tags-Keeps i [] s = Keeps-refl q s
  import_tags-Keeps i (t ∷ ts) s =
      >>=-Keeps (import_tag i t) (λ _. import_tags i ts) s (import_tag-Keeps i t s)
        (λ _ u. import_tags-Keeps i ts u)

  import_instances-Keeps :
      (is : List Instance) (s : Process W) → Keeps q s (after (import_instances is s))
  unfolding import_instances
  import_instances-Keeps [] s = Keeps-refl q s
  import_instances-Keeps (i ∷ is) s =
      >>=-Keeps (import_tags i i.tags) (λ _. import_instances is) s (import_tags-Keeps i i.tags s)
        (λ _ u. import_instances-Keeps is u)

  import_reservations-Keeps :
      (rs : List (List Instance)) (s : Process W) → Keeps q s (after (import_reservations rs s))
  unfolding import_reservations
  import_reservations-Keeps [] s = Keeps-refl q s
  import_reservations-Keeps (r ∷ rs) s =
      >>=-Keeps (import_instances r) (λ _. import_reservations rs) s (import_instances-Keeps r s)
        (λ _ u. import_reservations-Keeps rs u)

  import_page-Keeps :
      (input : DescribeInstancesInput) (s : Process W) → Keeps q s (after (import_page input s))
  unfolding import_page
  import_page-Keeps input s = grind (arith, import_reservations-Keeps)

  import_pages-Keeps :
      (fuel : ℕ) (token : Option String) (first : Bool) (input : DescribeInstancesInput)
      (s : Process W)
      → Keeps q s (after (import_pages fuel token first input s))
  unfolding import_pages
  import_pages-Keeps zero token first input s = Keeps-refl q s
  import_pages-Keeps (suc fuel) token first input s = elim (Bool-cases (is_some token || first)) [
    | inr over ↦ rw over (Keeps-refl q s)
    | inl more ↦ rw more (
        >>=-Keeps {B = Unit {0}} (import_page input)
          (λ page. elim page [
            | none ↦ pure tt
            | some k ↦ import_pages fuel token false (with_token input k)
          ])
          s (import_page-Keeps input s)
          (elim [
            | none ↦ λ t. Keeps-refl q t
            | some k ↦ import_pages-Keeps fuel token false (with_token input k)
          ]))
  ]

  pub refresh_warm_pool_from_ec2-Keeps :
      (s : Process W) → Keeps q s (after (refresh_warm_pool_from_ec2 s))
  unfolding refresh_warm_pool_from_ec2 check_ec2_tags_for_state
  refresh_warm_pool_from_ec2-Keeps s =
      Keeps-trans {t = reset_state s} (ground arith)
        (import_pages-Keeps 2 none true _ (reset_state s))

  pub pop_ready-Keeps : (s : Process W) → Keeps q s (after (pop_ready s))
  unfolding pop_ready pop
  pop_ready-Keeps s = ground arith

  pub get_warm_pool_instance_if_exist-Keeps :
      (s : Process W) → Keeps q s (after (get_warm_pool_instance_if_exist s))
  unfolding get_warm_pool_instance_if_exist
  get_warm_pool_instance_if_exist-Keeps s =
      >>=-Keeps refresh_warm_pool_from_ec2 (λ _. pop_ready) s (refresh_warm_pool_from_ec2-Keeps s)
        (λ _ t. pop_ready-Keeps t)
