-- ===== src/Health/Addresses.antt =====
-- handleCheckResult of internal/health/handler.go: the addresses of a pod.
use aws_virtual_kubelet.Base.{ℕ, ◌≡◌, ◌≢◌, arith, ==_iff}
use aws_virtual_kubelet.Process.{Process, done, after}
use aws_virtual_kubelet.Kube.{Pod}
use aws_virtual_kubelet.Health.Monitor.{CheckResult, nil_pod_status}
use aws_virtual_kubelet.Health.Handler.{handle_check_result}

-- Everything of a pod but its phase and conditions, which an agent reports.
pub record SameAddresses (p q : Pod) : Type 0 where
  pub name : q.name ≡ p.name
  pub namespace : q.namespace ≡ p.namespace
  pub annotations : q.annotations ≡ p.annotations
  pub pod_ip : q.status.pod_ip ≡ p.status.pod_ip
  pub pod_ips : q.status.pod_ips ≡ p.status.pod_ips
  pub host_ip : q.status.host_ip ≡ p.status.host_ip

module _ {W : Type 0} (result : CheckResult) (s : Process W) where
  -- The handling of a check result returns unless the result brings a nil status, and leaves every
  -- pod its names, annotations and addresses, whatever status an agent has sent; the cache of the
  -- pods and the monitors stay.
  handle_check_result-SameAddresses :
      (q : ℕ)
      → result.content ≢ nil_pod_status
      → let t = after (handle_check_result result s) in
        (handle_check_result result s ≡ done tt t)
        × SameAddresses (s.pods q) (t.pods q)
        × (t.cache ≡ s.cache)
        × (t.pod_monitors ≡ s.pod_monitors)
  unfolding handle_check_result
  handle_check_result-SameAddresses q present = ground (arith, ==_iff q result.monitor.resource)
