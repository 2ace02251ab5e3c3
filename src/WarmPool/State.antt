-- ===== src/WarmPool/State.antt =====
-- internal/ec2provider/warmpool.go: the state that the warm pool keeps, and what it tells the EC2 API.
use aws_virtual_kubelet.Base.{ℕ, ◌+◌, String, List, Table, length, []}

pub record Ec2Info : Type 0 where
  pub instance_id : String
  pub private_ip : String
  pub iam_profile : String
  pub security_groups : List String
  pub retry_count : ℕ

-- Type `State`; its mutex is left out, as an operation runs from `Lock` to `Unlock` at once.
pub record State : Type 0 where
  pub ready_ec2 : Table Ec2Info
  pub provisioning_ec2 : Table Ec2Info
  pub unhealthy_ec2 : Table Ec2Info
  pub allocated_ec2 : Table Ec2Info

-- `State{}` with its four maps made.
abbrev pub empty_state : State
empty_state = record {
  ready_ec2 = [];
  provisioning_ec2 = [];
  unhealthy_ec2 = [];
  allocated_ec2 = [];
}

-- `len(VKState.ReadyEC2) + len(VKState.ProvisioningEC2)`
abbrev pub cumulative_warm_ec2 : State → ℕ
cumulative_warm_ec2 s = length s.ready_ec2 + length s.provisioning_ec2
