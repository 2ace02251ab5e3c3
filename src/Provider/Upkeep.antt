-- ===== src/Provider/Upkeep.antt =====
-- internal/ec2provider/ec2provider.go: recreatePod, handlePodStatusUpdate, PopulateCache and the
-- rounds of statusLoop.
use aws_virtual_kubelet.Base.{ℕ, suc, String, List, [], ◌∷◌, map, Option, none, some, Table, insert}
use aws_virtual_kubelet.Kube.{PodStatus}
use aws_virtual_kubelet.Cloud.{Env, Result, ok, err}
use aws_virtual_kubelet.Process.{Process, MetaPod, Go, ◌>>=◌, ◌>>◌, pure, panic, get, modify}
use aws_virtual_kubelet.Config.Validate.{join}
use aws_virtual_kubelet.Health.Monitor.{to_string}
use aws_virtual_kubelet.Awsutils.Instances.{read_pod, write_pod}
use aws_virtual_kubelet.Cache.{cache_get, cache_delete, with_cache, get_list}
use aws_virtual_kubelet.Compute.{delete_compute}
use aws_virtual_kubelet.Provider.{pod_key, create_pod}
use aws_virtual_kubelet.Provider.Monitoring.{
  new_check_handler, create_pod_monitor, start, stop_pod_monitor, notify, notify_pod_delete,
}

module _ {W : Type 0} ⦃env : Env W⦄ where
  -- `recreatePod` once monitoring is stopped: errors are logged or dropped
  unfoldable pub replace_pod : ℕ → String → Go W (Unit {0})
  replace_pod pod key = do
    _ ← delete_compute pod
    notify_pod_delete pod
    modify (cache_delete key)
    _ ← create_pod pod
    pure tt

  -- the log line after a failed `stopPodMonitor`, which reads the cached pod
  unfoldable pub log_not_stopped : Option MetaPod → Result (Unit {0}) → Go W (Unit {0})
  log_not_stopped meta_pod (ok _) = pure tt
  log_not_stopped none (err _) = panic "nil pointer dereference"
  log_not_stopped (some _) (err _) = pure tt

  -- `recreatePod`
  unfoldable pub recreate_pod : ℕ → Go W (Unit {0})
  unfolding log_not_stopped cache_get
  recreate_pod pod = do
    s ← get
    p ← read_pod pod
    let meta_pod = cache_get (pod_key p) s
    stopped ← stop_pod_monitor meta_pod
    log_not_stopped meta_pod stopped
    replace_pod pod (pod_key p)

  -- `handlePodStatusUpdate`
  unfoldable pub handle_pod_status_update : ℕ → PodStatus → Go W (Result (Unit {0}))
  handle_pod_status_update pod pod_status = do
    p ← read_pod pod
    write_pod pod (record p { status = pod_status })
    notify pod
    pure (ok tt)

-- A pod's line of the status message: the states of its monitors. The reset for the next pod is in
-- the fresh list.
unfoldable pub monitor_states : {W : Type 0} → Process W → ℕ → String
unfolding to_string join
monitor_states s m = join (map to_string (s.pod_monitors m).monitors) ", "

module _ {W : Type 0} where
  -- The loop of `PopulateCache`: each cached pod gets a started monitor on a handler of its own.
  unfoldable pub monitor_all : Table MetaPod → Go W (Table MetaPod)
  unfolding new_check_handler create_pod_monitor start
  monitor_all [] = pure []
  monitor_all ((key, meta_pod) ∷ rest) = do
    handler ← new_check_handler
    m ← create_pod_monitor meta_pod.pod handler
    start m
    monitored ← monitor_all rest
    pure ((key, record meta_pod { monitor = some m }) ∷ monitored)

  -- `PopulateCache`
  unfoldable pub populate_cache : Table MetaPod → Go W (Unit {0})
  populate_cache cache = do monitored ← monitor_all cache; modify (with_cache monitored)

  -- The loop over the cached pods in a round of `statusLoop`: the entries of `monitors`, by the names
  -- of the pods, and `numPods`.
  unfoldable pub pod_stats : List MetaPod → Table String → ℕ → Go W (Table String × ℕ)
  unfolding monitor_states
  pod_stats [] monitors num_pods = pure (monitors, num_pods)
  pod_stats (meta_pod ∷ rest) monitors num_pods = do
    s ← get
    elim meta_pod.monitor [
      | none ↦ panic "nil pointer dereference"
      | some m ↦
          pod_stats rest (insert (s.pods meta_pod.pod).name (monitor_states s m) monitors)
            (suc num_pods)
    ]

  -- A round of `statusLoop` with a cache: what it reports of the pods.
  unfoldable pub status_round : Go W (Table String × ℕ)
  unfolding get_list
  status_round = do s ← get; pod_stats (get_list s) [] 0
