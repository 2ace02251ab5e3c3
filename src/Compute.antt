-- ===== src/Compute.antt =====
-- internal/ec2provider/compute.go: where a pod gets its instance from, and how it loses it.
pub mod Frame
pub mod Placement
use aws_virtual_kubelet.Base.{
  ℕ, String, str_append, str_eq, Bool, false, List, [], ◌∷◌, Option, none, some, length,
  if◌then◌else◌,
}
use aws_virtual_kubelet.Kube.{Pod, annotation, annotate}
use aws_virtual_kubelet.Cloud.{Env, Result, ok, err}
use aws_virtual_kubelet.Process.{Go, ◌>>=◌, ◌>>◌, pure, get, call}
use aws_virtual_kubelet.Utils.{pod_is_warm_pool}
use aws_virtual_kubelet.Awsutils.UserData.{new_client, generate_vkvm_user_data}
use aws_virtual_kubelet.Awsutils.Instances.{
  create_ec2, terminate_ec2, get_private_ip, read_pod, write_pod, write_annotation,
}
use aws_virtual_kubelet.WarmPool.Launch.{text_or_empty}
use aws_virtual_kubelet.WarmPool.Tags.{set_pod, update_ec2_tags}
use aws_virtual_kubelet.WarmPool.Refresh.{get_warm_pool_instance_if_exist}

abbrev pub instance_id_key : String
instance_id_key = "compute.amazonaws.com/instance-id"

abbrev pub with_pod_ip : String → Pod → Pod
with_pod_ip ip pod = record pod { status = record (pod.status) { pod_ip = ip } }

-- Exactly one status, and in it a state with the name "running".
unfoldable pub is_running : List (Option String) → Bool
is_running (some name ∷ []) = str_eq name "running"
is_running _ = false

module _ {W : Type 0} ⦃env : Env W⦄ where
  abbrev pub write_pod_ip : ℕ → String → Go W (Unit {0})
  write_pod_ip pod ip = do p ← read_pod pod; write_pod pod (with_pod_ip ip p)

  -- `podHasInstance`
  unfoldable pub pod_has_instance : ℕ → Go W Bool
  unfolding new_client is_running annotation
  pod_has_instance pod = do
    p ← read_pod pod
    let pod_instance_id = annotation instance_id_key p
    if str_eq pod_instance_id "" then pure false else do
      _ ← new_client
      status ← call (env.describe_instance_status (pod_instance_id ∷ []))
      elim status [ err _ ↦ pure false | ok statuses ↦ pure (is_running statuses) ]

  -- `createCompute`; the error of the user data is overwritten by the next one
  unfoldable pub create_compute : ℕ → Go W (Result (String × String))
  create_compute pod = do
    s ← get
    let cfg = s.config
    user_data ←
        generate_vkvm_user_data cfg.bootstrap_agent.s3_bucket cfg.bootstrap_agent.s3_key
          cfg.vm_config.init_data cfg.bootstrap_agent.init_data
    created ← create_ec2 pod (text_or_empty user_data)
    elim created [
      | err e ↦ pure (err (str_append "failed to create ec2 instance, error : " (str_append e " ")))
      | ok instance_id ↦ do
        found ← get_private_ip instance_id
        elim found [
          | err e ↦ pure (err e)
          | ok private_ip ↦ do write_pod_ip pod private_ip; pure (ok (instance_id, private_ip))
        ]
    ]

  -- the branch of `GetCompute` for a warm pool
  unfoldable pub get_warm_compute : ℕ → Go W (Result (String × String))
  unfolding annotate
  get_warm_compute pod = do
    found ← get_warm_pool_instance_if_exist
    elim found [
      | none ↦ pure (err "no instance in 'Ready' state")
      | some (instance_id, private_ip) ↦ do
        write_annotation pod instance_id_key instance_id
        write_pod_ip pod private_ip
        p ← read_pod pod
        tagged ← update_ec2_tags instance_id set_pod p
        elim tagged [ err e ↦ pure (err e) | ok _ ↦ pure (ok (instance_id, private_ip)) ]
    ]

  -- `GetCompute` once it is known whether the pod has an instance
  unfoldable pub choose_compute : ℕ → Bool → Go W (Result (String × String))
  unfolding annotation pod_is_warm_pool
  choose_compute pod has_instance = do
    p ← read_pod pod
    s ← get
    if has_instance
        then pure (ok (annotation instance_id_key p, p.status.pod_ip))
        else if pod_is_warm_pool (length s.config.warm_pool_config)
        then get_warm_compute pod
        else create_compute pod

  -- `GetCompute`
  unfoldable pub get_compute : ℕ → Go W (Result (String × String))
  get_compute pod = do has_instance ← pod_has_instance pod; choose_compute pod has_instance

  -- `DeleteCompute`, `deleteCompute`
  unfoldable pub delete_compute : ℕ → Go W (Result (Unit {0}))
  unfolding annotation
  delete_compute pod = do
    p ← read_pod pod
    r ← terminate_ec2 (annotation instance_id_key p)
    elim r [ err e ↦ pure (err e) | ok _ ↦ pure (ok tt) ]
