-- ===== src/Provider/Goroutines/Steps.antt =====
-- Every step of CreatePod, UpdatePod and DeletePod keeps to the key of the call.
use aws_virtual_kubelet.Base.{
  ℕ, ◌≡◌, refl, String, ◌∷◌, Option, none, some, true, lookup, subst, arith,
}
use aws_virtual_kubelet.Cloud.{Env, Result, ok, err}
use aws_virtual_kubelet.Process.{Process, MetaPod, update, pure, ◌>>=◌}
use aws_virtual_kubelet.Health.PodMonitor.{started}
use aws_virtual_kubelet.Cache.{cache_get}
use aws_virtual_kubelet.Metrics.{terminate_application_errors}
use aws_virtual_kubelet.Compute.{pod_has_instance, choose_compute, delete_compute}
use aws_virtual_kubelet.Compute.Frame.{
  pod_has_instance-Keeps, choose_compute-Keeps, delete_compute-Keeps,
}
use aws_virtual_kubelet.Agent.{new_vkvma_client, get_application_lifecycle_client}
use aws_virtual_kubelet.Agent.Frame.{get_application_lifecycle_client-Keeps}
use aws_virtual_kubelet.Provider.Monitoring.{start, notify, notify_pod_delete, mark_deleted}
use aws_virtual_kubelet.Provider.Removal.{terminate_app-Keeps}
use aws_virtual_kubelet.Provider.{pod_key, terminate_app}
use aws_virtual_kubelet.Provider.Goroutines.{
  Goroutine, creating, caching, finding, choosing, using, connecting, launching, undoing, dropping,
  counting, marking, starting, telling, tallying, deleting, stopping, terminating, releasing,
  removing, reporting, updating, replacing, ended, advance,
}
use aws_virtual_kubelet.Provider.Goroutines.Owners.{
  MayBelong, IsOwned, Calm, Calm-refl, Calm-IsOwned,
}
use aws_virtual_kubelet.Provider.Goroutines.Points.{
  monitor_of, Goes-before, IsAt, Goes, calm, Goes-Calm, Keeps-Returns,
}
use aws_virtual_kubelet.Provider.Goroutines.Advances.{
  creating-Goes, caching-Goes, removed, written, asked, marking-Goes, stopping-Goes, notify-Calm,
  notify_pod_delete-Calm, updating-Goes, replacing-Goes,
}

module _ {W : Type 0} ⦃env : Env W⦄ (key : String) where
  cached-MayBelong :
      (s : Process W) (k : String) (o : Option MetaPod)
      → IsOwned s
      → k ≡ key
      → lookup k s.cache ≡ o
      → MayBelong s key (monitor_of o)
  cached-MayBelong s k none h same is = tt
  cached-MayBelong s k (some e) h same is =
      h.monitors key e (subst (λ j. lookup j s.cache ≡ some e) same is)

  abbrev reported : ℕ → Process W → Process W
  reported pod s = record s {
    pods = update s.pods pod (
        mark_deleted "EC2 Provider terminated container upon deletion" (env.now s.world)
          "ProviderPodContainerDeleted" (s.pods pod));
  }

  released :
      (pod : ℕ) (k : String) (r : Result (Unit {0})) (s u : Process W)
      → IsOwned s
      → k ≡ key
      → Calm s u
      → Goes key s (
          (delete_compute pod
              >>= elim [ err e ↦ pure (ended (err e)) | ok _ ↦ pure (removing pod k) ])
            u)
  released pod k r s u h a c = Goes-before key _ c (
      Goes-Calm key (delete_compute pod) _ u (Keeps-Returns u _ (λ q. delete_compute-Keeps q pod u))
        (λ r t d.
          asked key (λ e. ended (err e)) (removing pod k) r (Calm-IsOwned c h) d (λ e. tt) a))

  -- Every step of a call for a key keeps to the key.
  pub advance-Goes :
      (g : Goroutine) (s : Process W) → IsOwned s → IsAt key s g → Goes key s (advance g s)
  unfolding advance
  advance-Goes (creating pod) s h a = creating-Goes key pod s h a
  advance-Goes (caching pod m n) s h a = caching-Goes key pod m n s h a
  advance-Goes (finding pod m k) s h a =
      Goes-Calm key (pod_has_instance pod) _ s
        (Keeps-Returns s _ (λ q. pod_has_instance-Keeps q pod s))
        (λ b t c. calm key (choosing pod m k b) h c a)
  advance-Goes (choosing pod m k b) s h a =
      Goes-Calm key (choose_compute pod b) _ s
        (Keeps-Returns s _ (λ q. choose_compute-Keeps q pod b s))
        (λ r t c. calm key (using pod m k r) h c a)
  advance-Goes (using pod m k (err e)) s h a = removed key k (ended (err e)) s a.0 h tt
  advance-Goes (using pod m k (ok (id, ip))) s h a =
      calm key (connecting pod m id) h (ground arith) (a.1, a.2)
  advance-Goes (connecting pod m id) s h a =
      Goes-Calm key
        (get_application_lifecycle_client
          (new_vkvma_client (s.pods pod).status.pod_ip s.config.vkvm_agent_connection_config.port))
        _ s (Keeps-Returns s _ (λ q. get_application_lifecycle_client-Keeps q _ s))
        (λ r t c. calm key (launching pod m id r) h c a)
  advance-Goes (launching pod m id (err e)) s h a = calm key (undoing pod e) h (ground arith) a.0
  advance-Goes (launching pod m id (ok c)) s h a =
      asked key (undoing pod) (marking pod m id) (env.launch_application c s.world).0 h
        (ground arith) (λ e. a.0) a.1
  advance-Goes (undoing pod e) s h a =
      Goes-Calm key (delete_compute pod) _ s (Keeps-Returns s _ (λ q. delete_compute-Keeps q pod s))
        (λ r t c. calm key (dropping pod e) h c a)
  advance-Goes (dropping pod e) s h a = removed key (pod_key (s.pods pod)) (counting e) s a h tt
  advance-Goes (counting e) s h a = calm key (ended (err e)) h (ground arith) tt
  advance-Goes (marking pod m id) s h a = marking-Goes key pod m id s h a
  advance-Goes (starting pod m) s h a =
      unfold start started in
      (written key m (started (s.pod_monitors m)) true (telling pod) s refl h a (λ t v. tt))
  advance-Goes (telling pod) s h a =
      Goes-Calm key (notify pod) _ s (notify-Calm key pod s) (λ _ t c. calm key tallying h c tt)
  advance-Goes tallying s h a = calm key (ended (ok tt)) h (ground arith) tt
  advance-Goes (deleting pod) s h a =
      calm key (stopping pod (pod_key (s.pods pod)) (cache_get (pod_key (s.pods pod)) s)) h
        (Calm-refl s)
        (
          a,
          unfold cache_get in
              (cached-MayBelong s (pod_key (s.pods pod)) (lookup (pod_key (s.pods pod)) s.cache) h a
                refl),
        )
  advance-Goes (stopping pod k none) s h a = tt
  advance-Goes (stopping pod k (some e)) s h a = stopping-Goes key pod k e s h a
  advance-Goes (terminating pod k e) s h a =
      Goes-Calm key (terminate_app e) _ s (Keeps-Returns s _ (λ q. terminate_app-Keeps q e s))
        (λ r t c. calm key (releasing pod k r) h c a)
  advance-Goes (releasing pod k (err e)) s h a =
      released pod k (err e) s (record s { metrics = terminate_application_errors ∷ s.metrics }) h a
        (ground arith)
  advance-Goes (releasing pod k (ok x)) s h a = released pod k (ok x) s s h a (Calm-refl s)
  advance-Goes (removing pod k) s h a = removed key k (reporting pod) s a h tt
  advance-Goes (reporting pod) s h a =
      let c : Calm s (reported pod s) = unfold mark_deleted in (ground arith) in
      Goes-before key _ c (
        Goes-Calm key (notify_pod_delete pod) _ (reported pod s)
          (notify_pod_delete-Calm key pod (reported pod s))
          (λ _ t d. calm key (ended (ok tt)) (Calm-IsOwned c h) d tt))
  advance-Goes (updating pod) s h a = updating-Goes key pod s h a
  advance-Goes (replacing pod k e) s h a = replacing-Goes key pod k e s h a
  advance-Goes (ended r) s h a = calm key (ended r) h (Calm-refl s) tt
