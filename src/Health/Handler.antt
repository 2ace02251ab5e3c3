-- ===== src/Health/Handler.antt =====
-- internal/health/handler.go: what becomes of a check result.
use aws_virtual_kubelet.Base.{ℕ, true, false, ◌∷◌}
use aws_virtual_kubelet.Kube.{Pod, PodStatus}
use aws_virtual_kubelet.Process.{Go, ◌>>=◌, ◌>>◌, pure, panic, get, modify, update}
use aws_virtual_kubelet.Health.Monitor.{
  CheckResult, CheckData, nothing, pod_status, nil_pod_status, other,
}

-- The status that an agent sends, with the addresses that the provider knows.
unfoldable pub with_known_ips : Pod → PodStatus → PodStatus
with_known_ips pod status = record status {
  pod_ip = pod.status.pod_ip;
  pod_ips = pod.status.pod_ips;
  host_ip = pod.status.host_ip;
}

module _ {W : Type 0} where
  -- the callback of internal/utils/notifier.go, which may not be set
  unfoldable pub notify_if_set : ℕ → Go W (Unit {0})
  notify_if_set pod = do
    s ← get
    elim s.notifier_set [
      | false ↦ pure tt
      | true ↦ modify λ t. record t { notified = t.pods pod ∷ t.notified }
    ]

  unfoldable pub handle_data : ℕ → CheckData → Go W (Unit {0})
  unfolding with_known_ips notify_if_set
  handle_data pod nothing = pure tt
  handle_data pod other = pure tt
  handle_data pod nil_pod_status = panic "nil pointer dereference"
  handle_data pod (pod_status status) = do
    s ← get
    modify λ t. record t {
      pods =
          update t.pods pod (record (t.pods pod) { status = with_known_ips (t.pods pod) status });
    }
    notify_if_set pod

  -- `handleCheckResult`; its switches over the monitor's state and subject write log lines only
  unfoldable pub handle_check_result : CheckResult → Go W (Unit {0})
  unfolding handle_data
  handle_check_result result = handle_data result.monitor.resource result.content
