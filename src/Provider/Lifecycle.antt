-- ===== src/Provider/Lifecycle.antt =====
-- A CreatePod and the DeletePod after it.
use aws_virtual_kubelet.Base.{
  ℕ, ◌≡◌, ◌∙◌, ap, refl, false, String, none, some, ◌∷◌, lookup, if◌then◌else◌, arith, eq_iff,
}
use text.Mathlib.TextPositions.{eq_refl}
use aws_virtual_kubelet.Cloud.{Env, ok}
use aws_virtual_kubelet.Process.{Process, done}
use aws_virtual_kubelet.Process.Frame.{Returns-done}
use aws_virtual_kubelet.Cache.{cache_get}
use aws_virtual_kubelet.Health.PodMonitor.{PodMonitor, new_pod_monitor, started, stopped}
use aws_virtual_kubelet.Provider.Creation.{Created, create_pod-Created}
use aws_virtual_kubelet.Provider.Creation.Steps.{new_entry}
use aws_virtual_kubelet.Provider.Removal.{Deleted, delete_pod-Deleted}
use aws_virtual_kubelet.Provider.Soundness.{IsSoundProcess, create_pod-IsSound}
use aws_virtual_kubelet.Provider.{pod_key, create_pod, delete_pod}

-- What is left in `u` of a pod that was created from the state `s`, as it was in `t`, and deleted.
pub record Over {W : Type 0} (pod : ℕ) (s t u : Process W) : Type 0 where
  pub cache : (key : String) → lookup key u.cache ≡ lookup key s.cache
  pub monitor :
      u.pod_monitors s.next_monitor ≡ stopped (started (new_pod_monitor pod s.default_handler))
  pub phase : (u.pods pod).status.phase ≡ "Succeeded"
  pub notified : u.notified ≡ u.pods pod ∷ t.pods pod ∷ s.notified

module _ {W : Type 0} ⦃env : Env W⦄ (pod : ℕ) (s t u : Process W) where
  same_key : Created pod s t → pod_key (t.pods pod) ≡ pod_key (s.pods pod)
  same_key c = rw (c.name, c.namespace) refl

  -- In a sound process a CreatePod of a pod that is not in the cache and a DeletePod after it, which
  -- both return no error, leave the cache as it was before, whatever EC2 and the agent answered: the
  -- monitor that was made for the pod is stopped, and Kubernetes was told of the pod twice, once as
  -- it was created and once as it has succeeded.
  pub delete_pod-create_pod :
      IsSoundProcess s
      → cache_get (pod_key (s.pods pod)) s ≡ none
      → create_pod pod s ≡ done (ok tt) t
      → delete_pod pod t ≡ done (ok tt) u
      → Over pod s t u
  unfolding cache_get started
  delete_pod-create_pod sound unknown created deleted = record {
    cache = same_cache;
    monitor = d.monitor ∙ ap stopped c.monitor;
    phase = d.phase;
    notified = d.notified ∙ ap (λ ps. u.pods pod ∷ ps) c.notified;
  }
    where
      c : Created pod s t
      c = create_pod-Created pod s t created

      key : String
      key = pod_key (s.pods pod)

      found : lookup (pod_key (t.pods pod)) t.cache ≡ some (new_entry pod s)
      found = rw (same_key c) (
          c.cache key
          ∙ ap (λ b. if b then some (new_entry pod s) else lookup key s.cache) (eq_refl key))

      d : Deleted pod s.next_monitor t u
      d =
          delete_pod-Deleted pod t u (new_entry pod s) s.next_monitor false found refl
            (ap (λ (pm : PodMonitor). pm.cancel) c.monitor)
            (Returns-done IsSoundProcess (create_pod-IsSound pod s sound) created).table deleted

      same_cache : (k : String) → lookup k u.cache ≡ lookup k s.cache
      same_cache k = ground (arith, d.cache k, c.cache k, same_key c, eq_iff key k, unknown)
