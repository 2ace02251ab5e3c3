-- ===== src/Awsutils/Instances.antt =====
-- internal/awsutils/ec2_utils.go: single instances.
use aws_virtual_kubelet.Base.{
  ℕ, String, str_append, str_eq, List, [], ◌∷◌, map, none, some, length, if◌then◌else◌,
}
use aws_virtual_kubelet.Kube.{Pod, annotation, annotate}
use aws_virtual_kubelet.Metrics.{
  describe_ec2_errors, ec2_launched, ec2_launch_errors, ec2_terminated, ec2_termination_errors,
}
use aws_virtual_kubelet.Cloud.{
  Env, Result, ok, err, TagSpecification, Instance, DescribeInstancesInput, DescribeInstancesOutput,
}
use aws_virtual_kubelet.Process.{
  Go, ◌>>=◌, ◌>>◌, pure, panic, get, modify, call, inc, index_zero, update,
}
use aws_virtual_kubelet.Utils.{trimmed_string_split}
use aws_virtual_kubelet.Utils.Text.{contains, trim, itoa}
use aws_virtual_kubelet.Awsutils.UserData.{
  new_client, ec2_run_instances_util, security_group_name_to_id,
}

abbrev pub by_id : String → DescribeInstancesInput
by_id instance_id = record { instance_ids = instance_id ∷ []; filters = []; next_token = none }

-- The one instance of the one reservation, or the message for what there is instead.
abbrev pub single_instance : String → String → DescribeInstancesOutput → Result Instance
single_instance many_reservations many_instances output = elim output.reservations [
  | instances ∷ [] ↦ elim instances [
    | instance' ∷ [] ↦ ok instance'
    | other ↦ err (str_append many_instances (itoa (length other)))
  ]
  | other ↦ err (str_append many_reservations (itoa (length other)))
]

-- The tags of a pod's annotation, each trimmed; none at all where there is none.
unfoldable pub annotation_tags : List (String × String) → List TagSpecification
unfolding trim
annotation_tags [] = []
annotation_tags (kv ∷ rest) =
    record {
      resource_type = "instance";
      tags = map (λ e. record { key = trim e.0; value = trim e.1 }) (kv ∷ rest);
    }
    ∷ []

module _ {W : Type 0} ⦃env : Env W⦄ where
  -- `*pod` through its pointer, and a write of `pod.Annotations[key]`
  abbrev pub read_pod : ℕ → Go W Pod
  read_pod pod = do s ← get; pure (s.pods pod)

  abbrev pub write_pod : ℕ → Pod → Go W (Unit {0})
  write_pod pod p = modify λ s. record s { pods = update s.pods pod p }

  abbrev pub write_annotation : ℕ → String → String → Go W (Unit {0})
  write_annotation pod key value = do
    p ← read_pod pod
    elim (annotate key value p) [
      | some p' ↦ write_pod pod p'
      | none ↦ panic "assignment to entry in nil map"
    ]

  -- `GetInstanceStatusById`: the state and the address, both empty while there is no address
  unfoldable pub get_instance_status_by_id : String → Go W (Result (String × String))
  get_instance_status_by_id instance_id = do
    result ← call (env.describe_instances (by_id instance_id))
    elim result [
      | err e ↦ do
        inc describe_ec2_errors
        pure (err (str_append e (str_append " , Input instanceId :" instance_id)))
      | ok output ↦
          elim (single_instance "DescribeInstances expect 1 Reservations, but got"
            "DescribeInstances expect 1 instance, but got" output) [
              | err e ↦ pure (err e)
              | ok i ↦ elim i.private_ip_address [
                | some ip ↦ pure (ok (i.state_name, ip))
                | none ↦ pure (ok ("", ""))
              ]
            ]
    ]

  -- `CreateEC2`
  unfoldable pub create_ec2 : ℕ → String → Go W (Result String)
  unfolding new_client ec2_run_instances_util annotation_tags annotation annotate
      trimmed_string_split
  create_ec2 pod user_data = do
    _ ← new_client
    p ← read_pod pod
    let tags_input =
        annotation_tags (env.json_string_map (annotation "compute.amazonaws.com/tags" p))
    resp ←
        ec2_run_instances_util (annotation "compute.amazonaws.com/instance-profile" p)
          (annotation "compute.amazonaws.com/image-id" p)
          (annotation "compute.amazonaws.com/instance-type" p)
          (annotation "compute.amazonaws.com/key-pair" p)
          (trimmed_string_split (annotation "compute.amazonaws.com/security-groups" p) ",")
          (annotation "compute.amazonaws.com/subnet-id" p) tags_input user_data
    elim resp [
      | err e ↦ do inc ec2_launch_errors; pure (err e)
      | ok instances ↦ do
        i ← index_zero instances
        write_annotation pod "compute.amazonaws.com/instance-id" i.instance_id
        inc ec2_launched
        pure (ok i.instance_id)
    ]

  -- `TerminateEC2`: an instance that is already gone counts as terminated
  unfoldable pub terminate_ec2 : String → Go W (Result String)
  unfolding new_client
  terminate_ec2 instance_id = if str_eq instance_id "" then pure (ok "instance-id-not-set") else do
    _ ← new_client
    resp ← call (env.terminate_instances (instance_id ∷ []))
    elim resp [
      | err e ↦
          if contains e "InvalidInstanceID.NotFound"
          then pure (ok "")
          else do inc ec2_termination_errors; pure (err e)
      | ok terminating ↦ do i ← index_zero terminating; inc ec2_terminated; pure (ok i)
    ]

  -- `UpdateInstanceSecurityGroups`: names become ids first, if the first of them is no id
  unfoldable pub update_instance_security_groups : String → List String → Go W (Result (Unit {0}))
  unfolding security_group_name_to_id
  update_instance_security_groups instance_id [] = pure (ok tt)
  update_instance_security_groups instance_id (sg ∷ sgs) = do
    ids ← (if contains sg "sg-" then pure (ok (sg ∷ sgs)) else security_group_name_to_id (sg ∷ sgs))
    elim ids [
      | err e ↦ pure (err e)
      | ok sg_ids ↦ call (env.modify_instance_groups instance_id sg_ids)
    ]

  -- `GetPrivateIP`, which waits for the instance to run
  unfoldable pub get_private_ip : String → Go W (Result String)
  unfolding new_client
  get_private_ip instance_id = do
    _ ← new_client
    waited ← call (env.wait_instance_running (instance_id ∷ []))
    elim waited [
      | err e ↦ pure (err (str_append e (str_append " , Input instanceId :" instance_id)))
      | ok _ ↦ do
        result ← call (env.describe_instances (by_id instance_id))
        elim result [
          | err e ↦ do
            inc describe_ec2_errors
            pure (err (str_append e (str_append " , Input instanceId :" instance_id)))
          | ok output ↦
              elim (single_instance "DescribeInstances call expected 1 Reservations, but got : "
                "DescribeInstances expected 1 instance, but got" output) [
                  | err e ↦ pure (err e)
                  | ok i ↦ elim i.private_ip_address [
                    | some ip ↦ pure (ok ip)
                    | none ↦
                        pure
                          (err (str_append "PrivateIpAddress is nil for instance : " instance_id))
                  ]
                ]
        ]
    ]
