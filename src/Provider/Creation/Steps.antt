-- ===== src/Provider/Creation/Steps.antt =====
-- The steps of CreatePod one by one, from the last to the first.
use aws_virtual_kubelet.Base.{
  ℕ, suc, ◌≡◌, ◌≢◌, String, ◌∷◌, Option, some, true, arith, ◌⊎◌, inl, inr,
}
use aws_virtual_kubelet.Cloud.{Env, Result, ok, err}
use aws_virtual_kubelet.Process.{Process, MetaPod, Outcome, crash, done, after, ◌>>=◌, update}
use aws_virtual_kubelet.Process.Frame.{Keeps, Keeps-trans, Ends, Returns, >>=-Ends}
use aws_virtual_kubelet.Cache.{cache_set, cache_delete}
use aws_virtual_kubelet.Compute.{get_compute}
use aws_virtual_kubelet.Compute.Frame.{get_compute-Keeps, delete_compute-Keeps}
use aws_virtual_kubelet.Agent.{VkvmaClient, new_vkvma_client, get_application_lifecycle_client}
use aws_virtual_kubelet.Agent.Frame.{get_application_lifecycle_client-Keeps}
use aws_virtual_kubelet.WarmPool.Frame.{update_ec2_tags-Keeps}
use aws_virtual_kubelet.WarmPool.Tags.{update_ec2_tags, set_in_use}
use aws_virtual_kubelet.Metrics.{grpc_app_client_errors}
use aws_virtual_kubelet.Health.PodMonitor.{started, new_pod_monitor}
use aws_virtual_kubelet.Provider.Monitoring.{start, notify}
use aws_virtual_kubelet.Provider.{
  pod_key, create_pod, launch_on, launch_over, launch_application, mark_in_use, after_launch,
  use_compute, undo_launch, finish_create,
}

-- The entry that CreatePod makes for a pod.
abbrev pub new_entry : {W : Type 0} → ℕ → Process W → MetaPod
new_entry pod s = record { pod = pod; monitor = some s.next_monitor; notifier = s.notifier_set }

module _ {W : Type 0} ⦃env : Env W⦄ (pod : ℕ) where
  abbrev pod_client : Process W → VkvmaClient
  unfolding new_vkvma_client
  pod_client s =
      new_vkvma_client (s.pods pod).status.pod_ip s.config.vkvm_agent_connection_config.port

  -- After a failed launch the cache has lost the pod.
  undo_launch-Keeps :
      (s u : Process W)
      → Keeps pod s u
      → Returns (Keeps pod (cache_delete (pod_key (s.pods pod)) s)) (undo_launch pod u)
  unfolding undo_launch cache_delete
  undo_launch-Keeps s u k = ground (arith, delete_compute-Keeps pod pod u)

  abbrev LaunchEnds : Process W → Outcome W (Result (Unit {0})) → Type 0
  LaunchEnds s = Ends (Keeps pod s) (Keeps pod (cache_delete (pod_key (s.pods pod)) s))

  launch_over-Ends :
      (c : Result (Option ℕ)) (s u : Process W) → Keeps pod s u → LaunchEnds s (launch_over pod c u)
  unfolding launch_over
  launch_over-Ends (err e) s u k =
      ground
        (arith, undo_launch-Keeps s (record u { metrics = grpc_app_client_errors ∷ u.metrics }))
  launch_over-Ends (ok c) s u k =
      ground
        (arith, undo_launch-Keeps s (record u { world = (env.launch_application c u.world).1 }))

  launch_application-Ends : (s : Process W) → LaunchEnds s (launch_application pod s)
  unfolding launch_application
  launch_application-Ends s =
      >>=-Ends _ _ (get_application_lifecycle_client (pod_client s)) (launch_over pod) s
        (get_application_lifecycle_client-Keeps pod (pod_client s) s)
        (λ c u. launch_over-Ends c s u)

  -- What a finished CreatePod has done, seen from the state `s` before it has an instance.
  pub record Finished (m : ℕ) (s t : Process W) : Type 0 where
    pub name : (t.pods pod).name ≡ (s.pods pod).name
    pub namespace : (t.pods pod).namespace ≡ (s.pods pod).namespace
    pub cache : t.cache ≡ s.cache
    pub next_monitor : t.next_monitor ≡ s.next_monitor
    pub monitor : t.pod_monitors m ≡ started (s.pod_monitors m)
    pub other_monitors : (j : ℕ) → j ≢ m → t.pod_monitors j ≡ s.pod_monitors j
    pub receiving : t.receiving (s.pod_monitors m).handler ≡ true
    pub notified : t.notified ≡ t.pods pod ∷ s.notified

  finish_create-Ends :
      (m : ℕ) (s u : Process W)
      → Keeps pod s u
      → Ends (Finished m s) (Keeps pod s) (finish_create pod m u)
  unfolding finish_create start notify
  finish_create-Ends m s u k = ground arith

  mark_in_use-Ends :
      (m : ℕ) (id : String) (s u : Process W)
      → Keeps pod s u
      → Ends (Finished m s) (Keeps pod s) (mark_in_use pod m id u)
  unfolding mark_in_use
  mark_in_use-Ends m id s u k = ground (
    arith,
    update_ec2_tags-Keeps pod id set_in_use (u.pods pod) u,
    finish_create-Ends m s u k,
    finish_create-Ends m s (after (update_ec2_tags id set_in_use (u.pods pod) u)),
  )

  -- What a failed CreatePod leaves, seen from that state: all as it was, or the pod's entry gone.
  abbrev pub Failed : Process W → Process W → Type 0
  Failed s t = Keeps pod s t ⊎ Keeps pod (cache_delete (pod_key (s.pods pod)) s) t

  after_launch-Ends :
      (m : ℕ) (id : String) (s u : Process W) (r : Result (Unit {0}))
      → Ends (Keeps pod s) (Keeps pod (cache_delete (pod_key (s.pods pod)) s)) (done r u)
      → Ends (Finished m s) (Failed s) (after_launch pod m id r u)
  unfolding after_launch
  after_launch-Ends m id s u (err e) k = inr (ground arith)
  after_launch-Ends m id s u (ok _) k = go (mark_in_use pod m id u) (mark_in_use-Ends m id s u k)
    where
      go :
          (o : Outcome W (Result (Unit {0})))
          → Ends (Finished m s) (Keeps pod s) o
          → Ends (Finished m s) (Failed s) o
      go (done (ok _) t) h = h
      go (done (err _) t) h = inl h
      go (crash _ _) h = tt

  cache_delete-Keeps :
      (s u : Process W)
      → Keeps pod s u
      → Keeps pod (cache_delete (pod_key (s.pods pod)) s) (cache_delete (pod_key (u.pods pod)) u)
  unfolding cache_delete
  cache_delete-Keeps s u k = ground arith

  launched-Ends :
      (m : ℕ) (id : String) (s u : Process W)
      → Keeps pod s u
      → Ends (Finished m s) (Failed s) ((launch_application pod >>= after_launch pod m id) u)
  launched-Ends m id s u k = go (launch_application pod u) (launch_application-Ends u)
    where
      go :
          (o : Outcome W (Result (Unit {0})))
          → LaunchEnds u o
          → Ends
              (Finished m s)
              (Failed s)
              (elim o [ done r t ↦ after_launch pod m id r t | crash e t ↦ crash e t ])
      go (done (ok r) t) h = after_launch-Ends m id s t (ok r) (Keeps-trans k h)
      go (done (err e) t) h =
          after_launch-Ends m id s t (err e) (Keeps-trans (cache_delete-Keeps s u k) h)
      go (crash e t) h = tt

  use_compute-Ends :
      (m : ℕ) (s u : Process W) (r : Result (String × String))
      → Keeps pod s u
      → Ends (Finished m s) (Failed s) (use_compute pod m (pod_key (s.pods pod)) r u)
  unfolding use_compute launch_on cache_delete
  use_compute-Ends m s u (err e) k = inr (ground arith)
  use_compute-Ends m s u (ok (id, ip)) k = launched-Ends m id s _ (ground arith)

  -- the state in which CreatePod asks for compute
  abbrev pub cached : Process W → Process W
  cached s = cache_set (pod_key (s.pods pod)) (new_entry pod s) (record s {
    pod_monitors = update s.pod_monitors s.next_monitor (new_pod_monitor pod s.default_handler);
    next_monitor = suc s.next_monitor;
  })

  pub create_pod-Ends :
      (s : Process W)
      → Ends (Finished s.next_monitor (cached s)) (Failed (cached s)) (create_pod pod s)
  unfolding create_pod cache_set
  create_pod-Ends s =
      >>=-Ends _ _ (get_compute pod) (use_compute pod s.next_monitor (pod_key (s.pods pod)))
        (cached s) (get_compute-Keeps pod pod (cached s))
        (λ r u k. use_compute-Ends s.next_monitor (cached s) u r k)
