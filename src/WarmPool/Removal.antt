-- ===== src/WarmPool/Removal.antt =====
-- RemoveFromWarmPool, RemoveFromReadyState and RemoveFromUnhealthyState of warmpool.go, and
-- TerminateInstance.
use aws_virtual_kubelet.Base.{
  String, ◌≡◌, refl, Table, none, IsTable, lookup, remove, lookup-remove, str_eq, if◌then◌else◌,
}
use aws_virtual_kubelet.Cloud.{Env, Result}
use aws_virtual_kubelet.Process.{Go}
use aws_virtual_kubelet.Awsutils.Instances.{terminate_ec2}
use aws_virtual_kubelet.WarmPool.State.{Ec2Info, State}

-- `RemoveFromWarmPool`, whose error is always nil, on the state that it locks
unfoldable pub remove_from_warm_pool : Ec2Info → State → State
remove_from_warm_pool ec2 state = record state {
  ready_ec2 = remove ec2.instance_id state.ready_ec2;
  provisioning_ec2 = remove ec2.instance_id state.provisioning_ec2;
  unhealthy_ec2 = remove ec2.instance_id state.unhealthy_ec2;
}

-- `RemoveFromReadyState`
unfoldable pub remove_from_ready_state : Ec2Info → State → State
remove_from_ready_state ec2 state = record state {
  ready_ec2 = remove ec2.instance_id state.ready_ec2;
}

-- `RemoveFromUnhealthyState`
unfoldable pub remove_from_unhealthy_state : Ec2Info → State → State
remove_from_unhealthy_state ec2 state = record state {
  unhealthy_ec2 = remove ec2.instance_id state.unhealthy_ec2;
}

-- `TerminateInstance`
unfoldable pub terminate_instance : {W : Type 0} ⦃env : Env W⦄ → String → Go W (Result String)
terminate_instance instance_id = terminate_ec2 instance_id

-- The entries of one map without those of an instance.
abbrev Without : Ec2Info → Table Ec2Info → Table Ec2Info → Type 0
Without ec2 before after =
    (k : String) → lookup k after ≡ (if str_eq ec2.instance_id k then none else lookup k before)

-- What RemoveFromWarmPool is to do.
pub record Removed (ec2 : Ec2Info) (s t : State) : Type 0 where
  pub ready : Without ec2 s.ready_ec2 t.ready_ec2
  pub provisioning : Without ec2 s.provisioning_ec2 t.provisioning_ec2
  pub unhealthy : Without ec2 s.unhealthy_ec2 t.unhealthy_ec2
  pub allocated : t.allocated_ec2 ≡ s.allocated_ec2

-- RemoveFromWarmPool takes an instance out of the ready, the provisioning and the unhealthy ones, and
-- leaves all other instances and the allocated ones.
pub remove_from_warm_pool-Removed :
    (ec2 : Ec2Info) (s : State)
    → IsTable s.ready_ec2
    → IsTable s.provisioning_ec2
    → IsTable s.unhealthy_ec2
    → Removed ec2 s (remove_from_warm_pool ec2 s)
unfolding remove_from_warm_pool
remove_from_warm_pool-Removed ec2 s ready provisioning unhealthy = record {
  ready = λ k. lookup-remove ec2.instance_id k s.ready_ec2 ready;
  provisioning = λ k. lookup-remove ec2.instance_id k s.provisioning_ec2 provisioning;
  unhealthy = λ k. lookup-remove ec2.instance_id k s.unhealthy_ec2 unhealthy;
  allocated = refl;
}
