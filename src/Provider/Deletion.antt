-- ===== src/Provider/Deletion.antt =====
-- DeletePod of a pod whose monitor never ran, and the notices of a deletion.
use aws_virtual_kubelet.Base.{ℕ, ◌≡◌, none, some, arith}
use aws_virtual_kubelet.Cloud.{Env}
use aws_virtual_kubelet.Process.{Process, MetaPod, crash}
use aws_virtual_kubelet.Cache.{cache_get}
use aws_virtual_kubelet.Provider.Monitoring.{stop_pod_monitor, stop}
use aws_virtual_kubelet.Provider.{pod_key, delete_pod}

module _ {W : Type 0} ⦃env : Env W⦄ (pod : ℕ) (s : Process W) where
  -- DeletePod of a pod whose monitor was never started panics, and changes nothing before that.
  pub delete_pod-unstarted :
      (m : MetaPod) (monitor : ℕ)
      → cache_get (pod_key (s.pods pod)) s ≡ some m
      → m.monitor ≡ some monitor
      → (s.pod_monitors monitor).cancel ≡ none
      → delete_pod pod s ≡ crash "call of a nil function" s
  unfolding delete_pod stop_pod_monitor stop
  delete_pod-unstarted m monitor h hm hc = ground arith
