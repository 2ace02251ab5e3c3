-- ===== src/WarmPool/Depth.antt =====
-- internal/ec2provider/warmpool.go: filling the pool and keeping its depth.
use aws_virtual_kubelet.Base.{
  ℕ, zero, suc, String, List, [], ◌∷◌, ◌++◌, Option, none, some, Table, length, get_elem?, keys,
  lookup, remove, ltb, pos, int_ltb, rounds, if◌then◌else◌,
}
use aws_virtual_kubelet.Config.{WarmPoolConfig}
use aws_virtual_kubelet.Metrics.{warm_ec2_terminated, warm_ec2_termination_errors}
use aws_virtual_kubelet.Cloud.{Env, ok, err}
use aws_virtual_kubelet.Process.{
  Process, Go, ◌>>=◌, ◌>>◌, pure, panic, get, modify, call, inc, deref,
}
use aws_virtual_kubelet.WarmPool.State.{Ec2Info, cumulative_warm_ec2}
use aws_virtual_kubelet.WarmPool.Launch.{create_warm_ec2}

-- The zero value that a read of a missing key gives.
abbrev pub info_or_zero : Option Ec2Info → Ec2Info
info_or_zero (some i) = i
info_or_zero none = record {
  instance_id = "";
  private_ip = "";
  iam_profile = "";
  security_groups = [];
  retry_count = 0;
}

abbrev pub set_ready_ec2 : {W : Type 0} → Table Ec2Info → Process W → Process W
set_ready_ec2 m s = record s { vk_state = record (s.vk_state) { ready_ec2 = m } }

abbrev pub set_provisioning_ec2 : {W : Type 0} → Table Ec2Info → Process W → Process W
set_provisioning_ec2 m s = record s { vk_state = record (s.vk_state) { provisioning_ec2 = m } }

module _ {W : Type 0} ⦃env : Env W⦄ where
  -- `popKey`: the first key that a range over the map yields
  unfoldable pub pop_key : Table Ec2Info → Go W String
  pop_key state_map = do
    i ← call (env.first_key (length state_map))
    deref (get_elem? (keys state_map) i)

  -- `pop`
  unfoldable pub pop : Table Ec2Info → Go W (Ec2Info × Table Ec2Info)
  unfolding pop_key
  pop state_map = do
    key ← pop_key state_map
    pure (info_or_zero (lookup key state_map), remove key state_map)

  -- One round of the loop that shrinks the pool: ready instances go first. The ids picked.
  unfoldable pub take_excess : Go W (List String)
  take_excess = do
    s ← get
    if ltb 0 (length s.vk_state.ready_ec2)
        then (do
          (info, rest) ← pop s.vk_state.ready_ec2
          modify (set_ready_ec2 rest)
          pure (info.instance_id ∷ []))
        else if ltb 0 (length s.vk_state.provisioning_ec2)
        then (do
          (info, rest) ← pop s.vk_state.provisioning_ec2
          modify (set_provisioning_ec2 rest)
          pure (info.instance_id ∷ []))
        else pure []

  -- That loop; `ids` is `terminatingInstances`.
  unfoldable pub take_all_excess : ℕ → List String → Go W (List String)
  take_all_excess zero ids = pure ids
  take_all_excess (suc n) ids = do more ← take_excess; take_all_excess n (ids ++ more)

  -- The loop that fills the pool up; an error of a launch is dropped.
  unfoldable pub create_missing : ℕ → WarmPoolConfig → Go W (Unit {0})
  create_missing zero wpc = pure tt
  create_missing (suc n) wpc = do _ ← create_warm_ec2 wpc; create_missing n wpc

  -- the end of that branch: one call for all, and one metric
  unfoldable pub terminate_excess : List String → Go W (Unit {0})
  terminate_excess ids = do
    r ← call (env.terminate_instances ids)
    (elim r [ err _ ↦ inc warm_ec2_termination_errors | ok _ ↦ pure tt ])
    inc warm_ec2_terminated

  -- `CheckWarmPoolDepth`
  unfoldable pub check_warm_pool_depth : WarmPoolConfig → Go W (Unit {0})
  unfolding terminate_excess
  check_warm_pool_depth wpc = do
    s ← get
    let cumulative = cumulative_warm_ec2 s.vk_state
    if int_ltb (pos cumulative) wpc.desired_count
        then create_missing (rounds wpc.desired_count (pos cumulative)) wpc
        else if int_ltb wpc.desired_count (pos cumulative)
        then (do
          ids ← take_all_excess (rounds (pos cumulative) wpc.desired_count) []
          terminate_excess ids)
        else pure tt

  -- one tick of the first ticker of `fillAndMaintain`
  unfoldable pub check_pools : List WarmPoolConfig → Go W (Unit {0})
  check_pools [] = pure tt
  check_pools (wpc ∷ wpcs) = do check_warm_pool_depth wpc; check_pools wpcs

  -- the loop of `InitialWarmPoolCreation` for one pool: there an error is a panic
  unfoldable pub create_initial : ℕ → WarmPoolConfig → Go W (Unit {0})
  create_initial zero wpc = pure tt
  create_initial (suc n) wpc = do
    r ← create_warm_ec2 wpc
    elim r [
      | ok _ ↦ create_initial n wpc
      | err _ ↦
          panic "This createWarmEC2 error wasn't originally handled...determine what to do here"
    ]

  -- the loop over the pools: each counts the instances of all of them
  unfoldable pub create_pools : List WarmPoolConfig → Go W (Unit {0})
  unfolding create_initial
  create_pools [] = pure tt
  create_pools (wpc ∷ wpcs) = do
    s ← get
    create_initial (rounds wpc.desired_count (pos (cumulative_warm_ec2 s.vk_state))) wpc
    create_pools wpcs
