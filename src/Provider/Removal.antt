-- ===== src/Provider/Removal.antt =====
-- DeletePod of a pod that is in the cache: what each of its two ways to return leaves behind.
use aws_virtual_kubelet.Base.{
  ℕ, String, ◌≡◌, ◌≢◌, ==_iff, ◌∷◌, none, some, false, remove, arith, ◌∙◌, sym, Bool, IsTable,
  lookup-remove,
}
use aws_virtual_kubelet.Cloud.{Env, Result, ok, err}
use aws_virtual_kubelet.Process.{Process, MetaPod, done, after}
use aws_virtual_kubelet.Process.Frame.{Keeps, Ends, Ends-ok, Ends-err, >>=-Ends}
use aws_virtual_kubelet.Agent.{new_vkvma_client}
use aws_virtual_kubelet.Agent.Frame.{get_application_lifecycle_client-Keeps}
use aws_virtual_kubelet.Cache.{cache_get, cache_delete}
use aws_virtual_kubelet.Compute.Frame.{delete_compute-Keeps}
use aws_virtual_kubelet.Provider.Monitoring.{
  write_monitor, set_receiving, notify, notify_pod_delete, stop, stop_pod_monitor,
}
use aws_virtual_kubelet.Provider.{
  pod_key, terminate_app, after_terminate, delete_stopped, finish_delete, delete_pod,
}
use aws_virtual_kubelet.Provider.Creation.{Changed}
use aws_virtual_kubelet.Health.PodMonitor.{stopped}

module _ {W : Type 0} ⦃env : Env W⦄ (pod : ℕ) where
  pub terminate_app-Keeps : (m : MetaPod) (s : Process W) → Keeps pod s (after (terminate_app m s))
  unfolding terminate_app new_vkvma_client
  terminate_app-Keeps m s = ground (
    arith,
    get_application_lifecycle_client-Keeps pod
        (new_vkvma_client (s.pods m.pod).status.pod_ip s.config.vkvm_agent_connection_config.port)
        s,
  )

  -- What the end of a DeletePod has done, seen from the state `s` before it.
  pub record Gone (key : String) (s t : Process W) : Type 0 where
    pub cache : t.cache ≡ remove key s.cache
    pub next_monitor : t.next_monitor ≡ s.next_monitor
    pub monitors : t.pod_monitors ≡ s.pod_monitors
    pub receiving : t.receiving ≡ s.receiving
    pub phase : (t.pods pod).status.phase ≡ "Succeeded"
    pub reason : (t.pods pod).status.reason ≡ "ProviderPodDeleted"
    pub notified : t.notified ≡ t.pods pod ∷ s.notified

  finish_delete-Ends :
      (key : String) (s u : Process W)
      → Keeps pod s u
      → Ends (Gone key s) (Keeps pod s) (finish_delete pod key u)
  unfolding finish_delete notify_pod_delete notify cache_delete
  finish_delete-Ends key s u k = ground arith

  -- Once the agent has been asked to terminate the application, with whatever result.
  terminated-Ends :
      (key : String) (r : Result (Unit {0})) (s u : Process W)
      → Keeps pod s u
      → Ends (Gone key s) (Keeps pod s) (after_terminate pod key r u)
  unfolding after_terminate
  terminated-Ends key r s u k =
      grind (arith, delete_compute-Keeps pod pod, finish_delete-Ends key s)

  pub delete_stopped-Ends :
      (key : String) (m : MetaPod) (s : Process W)
      → Ends (Gone key s) (Keeps pod s) (delete_stopped pod key m s)
  unfolding delete_stopped
  delete_stopped-Ends key m s =
      >>=-Ends _ _ (terminate_app m) (after_terminate pod key) s (terminate_app-Keeps m s)
        (λ r u. terminated-Ends key r s u)

-- What a DeletePod leaves of a pod whose entry in the cache has the monitor `m`.
pub record Deleted {W : Type 0} (pod m : ℕ) (s t : Process W) : Type 0 where
  pub cache : Changed (pod_key (s.pods pod)) none s t
  pub monitor : t.pod_monitors m ≡ stopped (s.pod_monitors m)
  pub other_monitors : (j : ℕ) → j ≢ m → t.pod_monitors j ≡ s.pod_monitors j
  pub receiving : t.receiving (s.pod_monitors m).handler ≡ false
  pub phase : (t.pods pod).status.phase ≡ "Succeeded"
  pub reason : (t.pods pod).status.reason ≡ "ProviderPodDeleted"
  pub notified : t.notified ≡ t.pods pod ∷ s.notified

-- What it leaves when it returns an error.
pub record NotDeleted {W : Type 0} (m : ℕ) (s t : Process W) : Type 0 where
  pub cache : t.cache ≡ s.cache
  pub monitor : t.pod_monitors m ≡ stopped (s.pod_monitors m)
  pub other_monitors : (j : ℕ) → j ≢ m → t.pod_monitors j ≡ s.pod_monitors j
  pub receiving : t.receiving (s.pod_monitors m).handler ≡ false
  pub notified : t.notified ≡ s.notified

module _ {W : Type 0} ⦃env : Env W⦄ (pod : ℕ) (s t : Process W) (entry : MetaPod) (m : ℕ)
    (called : Bool) (found : cache_get (pod_key (s.pods pod)) s ≡ some entry)
    (monitored : entry.monitor ≡ some m)
    (has_started : (s.pod_monitors m).cancel ≡ some called) where
  -- the process once the monitor is stopped
  abbrev unmonitored : Process W
  unmonitored =
      write_monitor m (stopped (s.pod_monitors m))
        (set_receiving (s.pod_monitors m).handler false s)

  delete_pod-delete_stopped :
      delete_pod pod s ≡ delete_stopped pod (pod_key (s.pods pod)) entry unmonitored
  unfolding delete_pod stop_pod_monitor stop
  delete_pod-delete_stopped = ground (arith, found, monitored, has_started)

  -- A DeletePod that returns no error, of a pod in the cache whose monitor was started, has removed
  -- its entry and no other, has stopped its monitor and the handler and no other monitor, and has
  -- sent the pod to Kubernetes once, as succeeded.
  pub delete_pod-Deleted : IsTable s.cache → delete_pod pod s ≡ done (ok tt) t → Deleted pod m s t
  delete_pod-Deleted table e =
      let g : Gone pod (pod_key (s.pods pod)) unmonitored t =
        Ends-ok (Gone pod (pod_key (s.pods pod)) unmonitored) (Keeps pod unmonitored)
          (delete_stopped-Ends pod (pod_key (s.pods pod)) entry unmonitored)
          (sym delete_pod-delete_stopped ∙ e) in
      record {
        cache = λ k. rw g.cache (lookup-remove (pod_key (s.pods pod)) k s.cache table);
        monitor = ground (arith, g.monitors);
        other_monitors = λ j other. ground (arith, g.monitors, ==_iff m j);
        receiving = ground (arith, g.receiving);
        phase = g.phase;
        reason = g.reason;
        notified = g.notified;
      }

  -- A DeletePod of such a pod that returns an error has removed no entry and sent nothing to
  -- Kubernetes, but has stopped the monitor and no other: the pod stays in the cache and is watched
  -- no more.
  pub delete_pod-NotDeleted : (e : String) → delete_pod pod s ≡ done (err e) t → NotDeleted m s t
  delete_pod-NotDeleted e h =
      let k : Keeps pod unmonitored t =
        Ends-err (Gone pod (pod_key (s.pods pod)) unmonitored) (Keeps pod unmonitored)
          (delete_stopped-Ends pod (pod_key (s.pods pod)) entry unmonitored)
          (sym delete_pod-delete_stopped ∙ h) in
      record {
        cache = k.cache;
        monitor = ground (arith, k.pod_monitors);
        other_monitors = λ j other. ground (arith, k.pod_monitors, ==_iff m j);
        receiving = ground (arith, k.receiving);
        notified = k.notified;
      }
