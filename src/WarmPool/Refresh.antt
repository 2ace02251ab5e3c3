-- ===== src/WarmPool/Refresh.antt =====
-- internal/ec2provider/warmpool.go: the state read back from the tags in EC2.
use aws_virtual_kubelet.Base.{
  ℕ, zero, suc, String, str_eq, Bool, true, false, ◌||◌, List, [], ◌∷◌, ◌++◌, Option, none, some,
  length, insert, ltb, if◌then◌else◌,
}
use aws_virtual_kubelet.Config.{WarmPoolConfig}
use aws_virtual_kubelet.Cloud.{Env, ok, err, Tag, Instance, Filter, DescribeInstancesInput}
use aws_virtual_kubelet.Process.{Process, Go, ◌>>=◌, ◌>>◌, pure, get, modify, call, deref}
use aws_virtual_kubelet.WarmPool.State.{Ec2Info, State, empty_state}
use aws_virtual_kubelet.WarmPool.Tags.{
  set_ready, operation_pending_warmpool, operation_ready, operation_unhealthy,
  operation_pending_pod, operation_pod_in_use, warmpool_status, update_ec2_tags,
}
use aws_virtual_kubelet.WarmPool.Launch.{empty_pod}
use aws_virtual_kubelet.WarmPool.Depth.{pop, set_ready_ec2, create_pools}

-- The map of the state that an instance belongs to by its status.
pub data Slot : Type 0 where
  ready provisioning unhealthy allocated : Slot

abbrev pub put : Slot → String → Ec2Info → State → State
put ready id i s = record s { ready_ec2 = insert id i s.ready_ec2 }
put provisioning id i s = record s { provisioning_ec2 = insert id i s.provisioning_ec2 }
put unhealthy id i s = record s { unhealthy_ec2 = insert id i s.unhealthy_ec2 }
put allocated id i s = record s { allocated_ec2 = insert id i s.allocated_ec2 }

abbrev pub info_of : String → String → Ec2Info
info_of id ip = record {
  instance_id = id;
  private_ip = ip;
  iam_profile = "";
  security_groups = [];
  retry_count = 0;
}

abbrev pub is_some : Option String → Bool
is_some none = false
is_some (some _) = true

abbrev pub with_token : DescribeInstancesInput → Option String → DescribeInstancesInput
with_token input none = input
with_token input (some t) = record input { next_token = some t }

-- The filters that `checkEC2TagsForState` adds.
abbrev pub pool_filters : String → String → List Filter
pool_filters node_name cluster_name =
    record { name = "tag:aws-virtual-kubelet/WarmpoolNodeName"; values = node_name ∷ [] }
    ∷ record { name = "tag:aws-virtual-kubelet/WarmpoolClusterName"; values = cluster_name ∷ [] }
    ∷ record { name = "instance-state-name"; values = "running" ∷ "pending" ∷ [] }
    ∷ []

abbrev pub all_instances : DescribeInstancesInput
all_instances = record { instance_ids = []; filters = []; next_token = none }

module _ {W : Type 0} ⦃env : Env W⦄ where
  abbrev pub enter : Slot → Instance → Go W (Unit {0})
  enter slot i = do
    ip ← deref i.private_ip_address
    modify λ s. record s { vk_state = put slot i.instance_id (info_of i.instance_id ip) s.vk_state }

  -- One tag of an instance, of which the status counts: an instance that was provisioning and runs
  -- by now is tagged as ready first, and passed over if that fails.
  unfoldable pub import_tag : Instance → Tag → Go W (Unit {0})
  import_tag i t =
      if str_eq t.key warmpool_status
      then (if str_eq t.value operation_pending_warmpool
          then (if str_eq i.state_name "running"
              then (do
                r ← update_ec2_tags i.instance_id set_ready empty_pod
                elim r [ err _ ↦ pure tt | ok _ ↦ enter ready i ])
              else enter provisioning i)
          else if str_eq t.value operation_ready
          then enter ready i
          else if str_eq t.value operation_unhealthy
          then enter unhealthy i
          else if str_eq t.value operation_pending_pod || str_eq t.value operation_pod_in_use
          then enter allocated i
          else pure tt)
      else pure tt

  -- The three nested loops over tags, instances and reservations.
  unfoldable pub import_tags : Instance → List Tag → Go W (Unit {0})
  import_tags i [] = pure tt
  import_tags i (t ∷ ts) = do import_tag i t; import_tags i ts

  unfoldable pub import_instances : List Instance → Go W (Unit {0})
  import_instances [] = pure tt
  import_instances (i ∷ is) = do import_tags i i.tags; import_instances is

  unfoldable pub import_reservations : List (List Instance) → Go W (Unit {0})
  import_reservations [] = pure tt
  import_reservations (r ∷ rs) = do import_instances r; import_reservations rs

  -- One page. `none` is the return after an error, and otherwise there is the page's `NextToken`.
  unfoldable pub import_page : DescribeInstancesInput → Go W (Option (Option String))
  import_page input = do
    resp ← call (env.describe_instances input)
    elim resp [
      | err _ ↦ pure none
      | ok output ↦ do import_reservations output.reservations; pure (some output.next_token)
    ]

  -- The loop over the pages. Its test reads the outer `resp`, which stays empty: the `resp` of the
  -- body is another variable. `outer_token` is the outer one's `NextToken`.
  unfoldable pub import_pages : ℕ → Option String → Bool → DescribeInstancesInput → Go W (Unit {0})
  import_pages zero outer_token first input = pure tt
  import_pages (suc fuel) outer_token first input =
      if is_some outer_token || first
      then (do
        page ← import_page input
        elim page [
          | none ↦ pure tt
          | some token ↦ import_pages fuel outer_token false (with_token input token)
        ])
      else pure tt

  abbrev pub reset_state : Process W → Process W
  reset_state s = record s { vk_state = empty_state }

  -- `checkEC2TagsForState`, which stops on its fuel at the latest.
  unfoldable pub check_ec2_tags_for_state : DescribeInstancesInput → Go W (Unit {0})
  check_ec2_tags_for_state input = do
    s ← get
    modify reset_state
    import_pages 2 none true
        (record input { filters = input.filters ++ pool_filters s.node_name s.config.cluster_name })

  -- `RefreshWarmPoolFromEC2`
  unfoldable pub refresh_warm_pool_from_ec2 : Go W (Unit {0})
  refresh_warm_pool_from_ec2 = check_ec2_tags_for_state all_instances

  -- one tick of the second ticker of `fillAndMaintain`
  unfoldable pub refresh_pools : List WarmPoolConfig → Go W (Unit {0})
  refresh_pools [] = pure tt
  refresh_pools (_ ∷ wpcs) = do refresh_warm_pool_from_ec2; refresh_pools wpcs

  -- the end of `GetWarmPoolInstanceIfExist`, once the state is refreshed
  unfoldable pub pop_ready : Go W (Option (String × String))
  pop_ready = do
    s ← get
    if ltb 0 (length s.vk_state.ready_ec2)
        then (do
          (ec2, rest) ← pop s.vk_state.ready_ec2
          modify (set_ready_ec2 rest)
          pure (some (ec2.instance_id, ec2.private_ip)))
        else pure none

  -- `GetWarmPoolInstanceIfExist`
  unfoldable pub get_warm_pool_instance_if_exist : Go W (Option (String × String))
  unfolding pop_ready
  get_warm_pool_instance_if_exist = do refresh_warm_pool_from_ec2; pop_ready

  -- `InitialWarmPoolCreation`
  unfoldable pub initial_warm_pool_creation : Go W (Unit {0})
  initial_warm_pool_creation = do
    check_ec2_tags_for_state all_instances
    s ← get
    create_pools s.config.warm_pool_config
