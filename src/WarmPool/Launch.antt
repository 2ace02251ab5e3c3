-- ===== src/WarmPool/Launch.antt =====
-- internal/ec2provider/warmpool.go: CreateWarmEC2 and createWarmEC2.
use aws_virtual_kubelet.Base.{
  String, List, [], ◌∷◌, none, some, length, get_elem?, insert, ◌==◌, if◌then◌else◌,
}
use aws_virtual_kubelet.Kube.{Pod}
use aws_virtual_kubelet.Config.{WarmPoolConfig}
use aws_virtual_kubelet.Metrics.{warm_ec2_launched, warm_ec2_launch_errors}
use aws_virtual_kubelet.Cloud.{Env, Result, ok, err, TagSpecification}
use aws_virtual_kubelet.Process.{
  Process, Go, ◌>>=◌, ◌>>◌, pure, get, modify, call, inc, deref, index_zero,
}
use aws_virtual_kubelet.Awsutils.UserData.{generate_vkvm_user_data, ec2_run_instances_util}
use aws_virtual_kubelet.WarmPool.Tags.{populate_ec2_tags, initial_setup}

-- The results of `CreateWarmEC2` but the error.
pub record WarmInstance : Type 0 where
  pub instance_id : String
  pub private_ip : String
  pub iam_profile_name : String
  pub security_groups : List String

-- `corev1.Pod{}`
abbrev pub empty_pod : Pod
empty_pod = record {
  name = "";
  namespace = "";
  uid = "";
  annotations = none;
  status = record {
    phase = "";
    reason = "";
    message = "";
    host_ip = "";
    pod_ip = "";
    pod_ips = [];
    conditions = [];
    container_statuses = [];
  };
}

abbrev pub text_or_empty : Result String → String
text_or_empty (ok t) = t
text_or_empty (err _) = ""

-- What `CreateWarmEC2` returns without a subnet: its error is the one of the user data, which is
-- nil if that was made, so that an instance with an empty id comes back as a success.
abbrev pub no_instance : Result String → Result WarmInstance
no_instance (err e) = err e
no_instance (ok _) =
    ok (record {
      instance_id = "";
      private_ip = "";
      iam_profile_name = "";
      security_groups = "" ∷ [];
    })

module _ {W : Type 0} ⦃env : Env W⦄ where
  -- `CreateWarmEC2`; an error about the user data is logged and passed over
  unfoldable pub create_warm_ec2_instance :
      WarmPoolConfig → List TagSpecification → Go W (Result WarmInstance)
  create_warm_ec2_instance wp_config tags = do
    s ← get
    let cfg = s.config
    user_data ←
        generate_vkvm_user_data cfg.bootstrap_agent.s3_bucket cfg.bootstrap_agent.s3_key
          cfg.vm_config.init_data cfg.bootstrap_agent.init_data
    if length wp_config.subnets == 0 then pure (no_instance user_data) else do
      r ← call (env.intn (length wp_config.subnets))
      subnet ← deref (get_elem? wp_config.subnets r)
      resp ←
          ec2_run_instances_util wp_config.iam_instance_profile wp_config.image_id
            wp_config.instance_type wp_config.key_pair wp_config.security_groups subnet tags
            (text_or_empty user_data)
      elim resp [
        | err e ↦ do inc warm_ec2_launch_errors; pure (err e)
        | ok instances ↦ do
          i ← index_zero instances
          inc warm_ec2_launched
          ip ← deref i.private_ip_address
          pure (
              ok (record {
                instance_id = i.instance_id;
                private_ip = ip;
                iam_profile_name = elim i.iam_instance_profile [ some p ↦ p | none ↦ "" ];
                security_groups = i.security_groups;
              }))
      ]

  -- the write to `VKState.ProvisioningEC2`
  unfoldable pub record_provisioning : WarmInstance → Process W → Process W
  record_provisioning i s = record s {
    vk_state = record (s.vk_state) {
      provisioning_ec2 =
          insert i.instance_id
            (record {
              instance_id = i.instance_id;
              private_ip = i.private_ip;
              iam_profile = i.iam_profile_name;
              security_groups = i.security_groups;
              retry_count = 0;
            })
            s.vk_state.provisioning_ec2;
    };
  }

  -- `createWarmEC2`
  unfoldable pub create_warm_ec2 : WarmPoolConfig → Go W (Result (Unit {0}))
  unfolding record_provisioning
  create_warm_ec2 wp_cfg = do
    s ← get
    let tags = populate_ec2_tags s.node_name s.config.cluster_name initial_setup empty_pod
    r ← create_warm_ec2_instance wp_cfg tags
    elim r [ err e ↦ pure (err e) | ok i ↦ do modify (record_provisioning i); pure (ok tt) ]
