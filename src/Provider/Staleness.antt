-- ===== src/Provider/Staleness.antt =====
-- UpdatePod and the monitors: whose status they report after an update.
use aws_virtual_kubelet.Base.{ℕ, ◌≡◌, ◌≢◌, some, lookup-insert, arith, ==_iff}
use text.Mathlib.TextPositions.{eq_refl}
use aws_virtual_kubelet.Cloud.{Env, ok}
use aws_virtual_kubelet.Process.{Process, MetaPod, done, after}
use aws_virtual_kubelet.Cache.{cache_get, cache_set, cache_update_pod}
use aws_virtual_kubelet.Health.Monitor.{CheckResult}
use aws_virtual_kubelet.Health.Handler.{handle_check_result}
use aws_virtual_kubelet.Provider.{pod_key, update_pod, get_pod_status}

module _ {W : Type 0} ⦃env : Env W⦄ where
  -- A check result about one pod object leaves all others alone.
  handle_check_result-other :
      (result : CheckResult) (pod : ℕ) (s : Process W)
      → result.monitor.resource ≢ pod
      → ((after (handle_check_result result s)).pods pod ≡ s.pods pod)
        × ((after (handle_check_result result s)).cache ≡ s.cache)
  unfolding handle_check_result
  handle_check_result-other result pod s distinct =
      ground (arith, ==_iff result.monitor.resource pod)

  -- After an UpdatePod with another object than the cached one, what the pod's monitors report is
  -- lost: their results still go to the old object, and GetPodStatus gives the status of the new
  -- object as it was at the update, whatever a check result says.
  pub get_pod_status-stale :
      (pod : ℕ) (s : Process W) (m : MetaPod) (result : CheckResult)
      → cache_get (pod_key (s.pods pod)) s ≡ some m
      → m.pod ≢ pod
      → result.monitor.resource ≡ m.pod
      → let t = after (handle_check_result result (after (update_pod pod s))) in
        get_pod_status (s.pods pod).namespace (s.pods pod).name t ≡ done (ok (s.pods pod).status) t
  unfolding update_pod cache_update_pod cache_get cache_set get_pod_status
  get_pod_status-stale pod s m result found distinct watched = ground (
    arith,
    handle_check_result-other result pod (after (update_pod pod s)),
    lookup-insert (pod_key (s.pods pod)) (pod_key (s.pods pod)) (record m { pod = pod }) s.cache,
    eq_refl (pod_key (s.pods pod)),
  )
