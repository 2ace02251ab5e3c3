-- ===== src/WarmPool/Mutex/Programs.antt =====
-- internal/ec2provider/warmpool.go: the methods that lock `VKState`, step by step.
use aws_virtual_kubelet.Base.{
  ℕ, zero, suc, String, List, [], ◌++◌, Option, none, true, pos, int_ltb, rounds, if◌then◌else◌,
}
use aws_virtual_kubelet.Config.{WarmPoolConfig}
use aws_virtual_kubelet.Cloud.{Env}
use aws_virtual_kubelet.Process.{Process, Go, ◌>>◌, pure, get, modify}
use aws_virtual_kubelet.WarmPool.State.{Ec2Info, State, cumulative_warm_ec2}
use aws_virtual_kubelet.WarmPool.Launch.{create_warm_ec2}
use aws_virtual_kubelet.WarmPool.Depth.{take_excess, terminate_excess, check_warm_pool_depth}
use aws_virtual_kubelet.WarmPool.Refresh.{all_instances, pool_filters, import_pages, pop_ready}
use aws_virtual_kubelet.WarmPool.Removal.{
  remove_from_warm_pool, remove_from_ready_state, remove_from_unhealthy_state,
}
use aws_virtual_kubelet.WarmPool.Mutex.{Program, stop, lock, unlock, reset, act}

-- What a call returns: GetWarmPoolInstanceIfExist an instance, and the others nothing.
abbrev pub Result : Type 0
Result = Option (String × String)

-- The methods that lock `VKState` first and unlock it at last; `take` is the end of
-- GetWarmPoolInstanceIfExist.
pub data Method : Type 0 where
  check : WarmPoolConfig → Method
  take : Method
  remove_everywhere remove_ready remove_unhealthy : Ec2Info → Method

abbrev pub change_state : {W : Type 0} → (State → State) → Go W (Unit {0})
change_state f = modify λ s. record s { vk_state = f s.vk_state }

abbrev pub returned : {W : Type 0} → Program W Result
returned = unlock (stop none)

module _ {W : Type 0} ⦃env : Env W⦄ where
  -- the loops of CheckWarmPoolDepth
  unfoldable pub fill : ℕ → WarmPoolConfig → Program W Result
  fill zero wpc = returned
  fill (suc n) wpc = act (create_warm_ec2 wpc) (λ _. fill n wpc)

  unfoldable pub shrink : ℕ → List String → Program W Result
  shrink zero ids = act (terminate_excess ids) (λ _. returned)
  shrink (suc n) ids = act take_excess (λ more. shrink n (ids ++ more))

  abbrev pub decide : WarmPoolConfig → ℕ → Program W Result
  decide wpc cumulative =
      if int_ltb (pos cumulative) wpc.desired_count
      then fill (rounds wpc.desired_count (pos cumulative)) wpc
      else if int_ltb wpc.desired_count (pos cumulative)
      then shrink (rounds (pos cumulative) wpc.desired_count) []
      else returned

  -- A method between its Lock and its Unlock.
  unfoldable pub body : Method → Program W Result
  body (check wpc) = act get (λ s. decide wpc (cumulative_warm_ec2 s.vk_state))
  body take = act pop_ready (λ r. unlock (stop r))
  body (remove_everywhere ec2) = act (change_state (remove_from_warm_pool ec2)) (λ _. returned)
  body (remove_ready ec2) = act (change_state (remove_from_ready_state ec2)) (λ _. returned)
  body (remove_unhealthy ec2) = act (change_state (remove_from_unhealthy_state ec2)) (λ _. returned)

  abbrev pub program : Method → Program W Result
  program m = lock (body m)

  -- The method as a whole.
  unfoldable pub at_once : Method → Go W Result
  at_once (check wpc) = do check_warm_pool_depth wpc; pure none
  at_once take = pop_ready
  at_once (remove_everywhere ec2) = do change_state (remove_from_warm_pool ec2); pure none
  at_once (remove_ready ec2) = do change_state (remove_from_ready_state ec2); pure none
  at_once (remove_unhealthy ec2) = do change_state (remove_from_unhealthy_state ec2); pure none

  -- RefreshWarmPoolFromEC2 with what follows it: the state is replaced, with its mutex, before the
  -- new mutex is locked.
  abbrev pub import_program : Program W Result → Process W → Program W Result
  import_program rest s =
      act
        (import_pages 2 none true (record all_instances {
          filters = all_instances.filters ++ pool_filters s.node_name s.config.cluster_name;
        }))
        (λ _. unlock rest)

  abbrev pub locked_program : Program W Result → Program W Result
  locked_program rest = act get (import_program rest)

  unfoldable pub refresh_program : Program W Result → Program W Result
  refresh_program rest = reset (lock (locked_program rest))

  -- GetWarmPoolInstanceIfExist
  unfoldable pub get_program : Program W Result
  unfolding refresh_program
  get_program = refresh_program (program take)
