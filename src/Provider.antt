-- ===== src/Provider.antt =====
-- internal/ec2provider/ec2provider.go: the methods that Kubernetes calls.
pub mod Monitoring
pub mod Deletion
pub mod Upkeep
pub mod Startup
pub mod Console
pub mod Soundness
pub mod Isolation
pub mod Orphans
pub mod Rehydration
pub mod Status
pub mod NodeName
pub mod Termination
pub mod Lifecycle
pub mod Lookup
pub mod Staleness
pub mod Removal
pub mod Creation
pub mod Goroutines
use aws_virtual_kubelet.Base.{
  ℕ, String, str_append, Bool, true, false, List, [], ◌∷◌, Option, none, some, Table, insert,
  length, if◌then◌else◌,
}
use aws_virtual_kubelet.Kube.{Pod, PodStatus}
use aws_virtual_kubelet.Metrics.{
  pods_launched, grpc_app_client_errors, launch_application_errors, terminate_application_errors,
}
use aws_virtual_kubelet.Cloud.{Env, Result, ok, err}
use aws_virtual_kubelet.Process.{
  Process, MetaPod, Go, ◌>>=◌, ◌>>◌, pure, panic, get, modify, call, inc,
}
use aws_virtual_kubelet.Utils.{get_pod_cache_key, pod_is_warm_pool}
use aws_virtual_kubelet.Awsutils.Instances.{read_pod, write_pod}
use aws_virtual_kubelet.Agent.{new_vkvma_client, get_application_lifecycle_client}
use aws_virtual_kubelet.WarmPool.Tags.{set_in_use, update_ec2_tags}
use aws_virtual_kubelet.Cache.{cache_get, cache_set, cache_delete, cache_update_pod, get_pod_list}
use aws_virtual_kubelet.Compute.{get_compute, delete_compute}
use Monitoring.{
  new_check_handler, create_pod_monitor, start, stop_pod_monitor, notify, mark_deleted,
  notify_pod_delete,
}

abbrev pub pod_key : Pod → String
pod_key pod = get_pod_cache_key pod.namespace pod.name

abbrev pub with_ips : String → Pod → Pod
with_ips ip pod = record pod { status = record (pod.status) { pod_ip = ip; host_ip = ip } }

module _ {W : Type 0} ⦃env : Env W⦄ where
  -- what `launchApplication` does when it fails: the instance and the cache entry go
  unfoldable pub undo_launch : ℕ → Go W (Unit {0})
  undo_launch pod = do _ ← delete_compute pod; p ← read_pod pod; modify (cache_delete (pod_key p))

  -- `launchApplication` over the client, if there is one
  unfoldable pub launch_over : ℕ → Result (Option ℕ) → Go W (Result (Unit {0}))
  launch_over pod (err e) = do inc grpc_app_client_errors; undo_launch pod; pure (err e)
  launch_over pod (ok connection) = do
    r ← call (env.launch_application connection)
    elim r [ err e ↦ do undo_launch pod; pure (err e) | ok _ ↦ pure (ok tt) ]

  -- `launchApplication`
  unfoldable pub launch_application : ℕ → Go W (Result (Unit {0}))
  unfolding new_vkvma_client
  launch_application pod = do
    s ← get
    p ← read_pod pod
    client ←
        get_application_lifecycle_client
          (new_vkvma_client p.status.pod_ip s.config.vkvm_agent_connection_config.port)
    launch_over pod client

  -- the end of `CreatePod`: the monitor starts, Kubernetes is told, the metric counts
  unfoldable pub finish_create : ℕ → ℕ → Go W (Result (Unit {0}))
  finish_create pod pod_monitor = do start pod_monitor; notify pod; inc pods_launched; pure (ok tt)

  -- the instance of a warm pool is tagged as in use first
  unfoldable pub mark_in_use : ℕ → ℕ → String → Go W (Result (Unit {0}))
  unfolding pod_is_warm_pool
  mark_in_use pod pod_monitor instance_id = do
    s ← get
    if pod_is_warm_pool (length s.config.warm_pool_config)
        then (do
          p ← read_pod pod
          tagged ← update_ec2_tags instance_id set_in_use p
          elim tagged [ err e ↦ pure (err e) | ok _ ↦ finish_create pod pod_monitor ])
        else finish_create pod pod_monitor

  -- what follows the launch of the application
  unfoldable pub after_launch : ℕ → ℕ → String → Result (Unit {0}) → Go W (Result (Unit {0}))
  after_launch pod pod_monitor instance_id (err e) = do inc launch_application_errors; pure (err e)
  after_launch pod pod_monitor instance_id (ok _) = mark_in_use pod pod_monitor instance_id

  -- `CreatePod` once it has an instance
  unfoldable pub launch_on : ℕ → ℕ → String → String → Go W (Result (Unit {0}))
  launch_on pod pod_monitor instance_id private_ip = do
    p ← read_pod pod
    write_pod pod (with_ips private_ip p)
    launched ← launch_application pod
    after_launch pod pod_monitor instance_id launched

  -- `CreatePod` once it knows its compute
  unfoldable pub use_compute : ℕ → ℕ → String → Result (String × String) → Go W (Result (Unit {0}))
  use_compute pod pod_monitor key (err e) = do modify (cache_delete key); pure (err e)
  use_compute pod pod_monitor key (ok (instance_id, private_ip)) =
      launch_on pod pod_monitor instance_id private_ip

  -- `CreatePod`
  unfoldable pub create_pod : ℕ → Go W (Result (Unit {0}))
  unfolding create_pod_monitor
  create_pod pod = do
    s ← get
    pod_monitor ← create_pod_monitor pod s.default_handler
    p ← read_pod pod
    modify (
        cache_set (pod_key p)
          (record { pod = pod; monitor = some pod_monitor; notifier = s.notifier_set }))
    compute ← get_compute pod
    use_compute pod pod_monitor (pod_key p) compute

  -- `UpdatePod`
  unfoldable pub update_pod : ℕ → Go W (Result (Unit {0}))
  unfolding cache_update_pod
  update_pod pod = do p ← read_pod pod; cache_update_pod (pod_key p) pod

  -- `terminateApp`
  unfoldable pub terminate_app : MetaPod → Go W (Result (Unit {0}))
  unfolding new_vkvma_client
  terminate_app meta_pod = do
    s ← get
    p ← read_pod meta_pod.pod
    client ←
        get_application_lifecycle_client
          (new_vkvma_client p.status.pod_ip s.config.vkvm_agent_connection_config.port)
    elim client [
      | err e ↦ do inc grpc_app_client_errors; pure (err e)
      | ok connection ↦ call (env.terminate_application connection)
    ]

  -- the end of `DeletePod`, once the instance is gone
  unfoldable pub finish_delete : ℕ → String → Go W (Result (Unit {0}))
  unfolding mark_deleted
  finish_delete pod key = do
    modify (cache_delete key)
    s ← get
    p ← read_pod pod
    write_pod pod (
        mark_deleted "EC2 Provider terminated container upon deletion" (env.now s.world)
          "ProviderPodContainerDeleted" p)
    notify_pod_delete pod
    pure (ok tt)

  -- `DeletePod` once the agent has been asked to terminate the application
  unfoldable pub after_terminate : ℕ → String → Result (Unit {0}) → Go W (Result (Unit {0}))
  unfolding finish_delete
  after_terminate pod key terminated = do
    (elim terminated [ err _ ↦ inc terminate_application_errors | ok _ ↦ pure tt ])
    deleted ← delete_compute pod
    elim deleted [ err e ↦ pure (err e) | ok _ ↦ finish_delete pod key ]

  -- `DeletePod` with the cached pod, whose monitor has been stopped
  unfoldable pub delete_stopped : ℕ → String → MetaPod → Go W (Result (Unit {0}))
  delete_stopped pod key meta_pod = do
    terminated ← terminate_app meta_pod
    after_terminate pod key terminated

  -- `DeletePod`: the error about the monitor is logged with the cached pod, also if there is none
  unfoldable pub delete_pod : ℕ → Go W (Result (Unit {0}))
  unfolding delete_stopped cache_get
  delete_pod pod = do
    s ← get
    p ← read_pod pod
    let meta_pod = cache_get (pod_key p) s
    stopped ← stop_pod_monitor meta_pod
    elim meta_pod [
      | none ↦ panic "nil pointer dereference"
      | some m ↦ elim stopped [ err e ↦ pure (err e) | ok _ ↦ delete_stopped pod (pod_key p) m ]
    ]

  -- `GetPod`, `GetPodStatus` (of the pod that `GetPod` finds), `GetPods`
  unfoldable pub get_pod : String → String → Go W (Result Pod)
  unfolding cache_get
  get_pod namespace name = do
    s ← get
    elim (cache_get (get_pod_cache_key namespace name) s) [
      | none ↦ pure (
          err (
            str_append "Pod "
              (str_append name (str_append "(" (str_append namespace ") does not exist")))))
      | some m ↦ pure (ok (s.pods m.pod))
    ]

  unfoldable pub get_pod_status : String → String → Go W (Result PodStatus)
  unfolding cache_get
  get_pod_status namespace name = do
    s ← get
    elim (cache_get (get_pod_cache_key namespace name) s) [
      | none ↦ pure (
          err (
            str_append "Pod "
              (str_append name (str_append "(" (str_append namespace ") does not exist")))))
      | some m ↦ pure (ok (s.pods m.pod).status)
    ]

  unfoldable pub get_pods : Go W (Result (List Pod))
  get_pods = do s ← get; pure (ok (get_pod_list s))
