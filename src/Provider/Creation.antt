-- ===== src/Provider/Creation.antt =====
-- CreatePod: what each of its two ways to return leaves behind.
pub mod Steps
use aws_virtual_kubelet.Base.{
  Bool, ℕ, suc, str_eq, if◌then◌else◌, IsTable, lookup-insert, lookup-remove, insert-IsTable, ◌≡◌,
  ◌≢◌, ==_iff, refl, String, List, ◌∷◌, Option, none, some, true, arith, lookup, insert, remove,
  ◌⊎◌, inl, inr, ap, ◌∙◌, sym, subst,
}
use aws_virtual_kubelet.Cloud.{Env, Result, ok, err}
use aws_virtual_kubelet.Process.{Process, MetaPod, Outcome, crash, done, after, ◌>>=◌, update}
use aws_virtual_kubelet.Process.Frame.{
  Keeps, Keeps-refl, Keeps-trans, Ends, Returns, >>=-Ends, Ends-ok, Ends-err,
}
use aws_virtual_kubelet.Cache.{cache_get, cache_set, cache_delete, with_cache}
use aws_virtual_kubelet.Compute.{get_compute}
use aws_virtual_kubelet.Compute.Frame.{get_compute-Keeps, delete_compute-Keeps}
use aws_virtual_kubelet.Agent.{VkvmaClient, new_vkvma_client, get_application_lifecycle_client}
use aws_virtual_kubelet.WarmPool.Frame.{update_ec2_tags-Keeps}
use aws_virtual_kubelet.WarmPool.Tags.{update_ec2_tags, set_in_use}
use aws_virtual_kubelet.Metrics.{grpc_app_client_errors}
use aws_virtual_kubelet.Health.PodMonitor.{PodMonitor, started, new_pod_monitor}
use aws_virtual_kubelet.Provider.Monitoring.{create_pod_monitor, start, notify}
use aws_virtual_kubelet.Provider.{
  pod_key, delete_pod, create_pod, launch_on, launch_over, launch_application, mark_in_use,
  after_launch, use_compute, undo_launch, finish_create,
}
use aws_virtual_kubelet.Provider.Deletion.{delete_pod-unstarted}
use text.Mathlib.TextPositions.{eq_refl}
use Steps.{Finished, Failed, cached, new_entry, create_pod-Ends}

-- The cache as it is, but for one key.
abbrev pub Changed : {W : Type 0} → String → Option MetaPod → Process W → Process W → Type 0
Changed key entry s t =
    (k : String) → lookup k t.cache ≡ (if str_eq key k then entry else lookup k s.cache)

-- What a CreatePod that returns no error has done.
pub record Created {W : Type 0} (pod : ℕ) (s t : Process W) : Type 0 where
  pub name : (t.pods pod).name ≡ (s.pods pod).name
  pub namespace : (t.pods pod).namespace ≡ (s.pods pod).namespace
  pub cache : Changed (pod_key (s.pods pod)) (some (new_entry pod s)) s t
  pub monitor : t.pod_monitors s.next_monitor ≡ started (new_pod_monitor pod s.default_handler)
  pub other_monitors : (j : ℕ) → j ≢ s.next_monitor → t.pod_monitors j ≡ s.pod_monitors j
  pub receiving : t.receiving s.default_handler ≡ true
  pub notified : t.notified ≡ t.pods pod ∷ s.notified

-- What one that returns an error has left: no entry, or an entry with a monitor not started.
pub record NotCreated {W : Type 0} (pod : ℕ) (s t : Process W) : Type 0 where
  pub cache :
      Changed (pod_key (s.pods pod)) none s t
      ⊎ (Changed (pod_key (s.pods pod)) (some (new_entry pod s)) s t
          × ((t.pod_monitors s.next_monitor).cancel ≡ none))
  pub name : (t.pods pod).name ≡ (s.pods pod).name
  pub namespace : (t.pods pod).namespace ≡ (s.pods pod).namespace
  pub notified : t.notified ≡ s.notified

-- the new monitor, before anything else happens
stored_monitor :
    {W : Type 0} ⦃env : Env W⦄ (pod : ℕ) (s : Process W)
    → (cached pod s).pod_monitors s.next_monitor ≡ new_pod_monitor pod s.default_handler
unfolding cache_set
stored_monitor pod s = ground arith

module _ {W : Type 0} ⦃env : Env W⦄ (pod : ℕ) (s t : Process W) where
  -- A CreatePod that returns no error has made one entry in the cache, under the pod's key, with a
  -- new monitor that is started on the default handler, leaves all other monitors as they were, and
  -- has sent the pod as it then is to Kubernetes, and nothing else.
  pub create_pod-Created : create_pod pod s ≡ done (ok tt) t → Created pod s t
  unfolding cache_set new_pod_monitor
  create_pod-Created e =
      let f : Finished pod s.next_monitor (cached pod s) t =
        Ends-ok (Finished pod s.next_monitor (cached pod s)) (Failed pod (cached pod s))
          (create_pod-Ends pod s) e in
      record {
        name = f.name;
        namespace = f.namespace;
        cache = λ k. rw f.cache (lookup-insert _ k _ s.cache);
        monitor = f.monitor ∙ ap started (stored_monitor pod s);
        other_monitors =
            λ j other. f.other_monitors j other ∙ ground (arith, ==_iff s.next_monitor j);
        receiving =
            subst (λ (pm : PodMonitor). t.receiving pm.handler ≡ true) (stored_monitor pod s)
              f.receiving;
        notified = ground arith;
      }

  -- A CreatePod that returns an error has sent nothing to Kubernetes, and has removed the pod's
  -- entry from the cache, or has left it there with a monitor that was never started.
  pub create_pod-NotCreated :
      IsTable s.cache → (e : String) → create_pod pod s ≡ done (err e) t → NotCreated pod s t
  unfolding cache_set cache_delete new_pod_monitor
  create_pod-NotCreated table e h = elim failed [
    | inl k ↦ record {
      cache =
          inr (λ j. rw k.cache (lookup-insert _ j _ s.cache), ground (arith, stored_monitor pod s));
      name = k.name;
      namespace = k.namespace;
      notified = k.notified;
    }
    | inr k ↦ record {
      cache = inl (λ j. rw k.cache (removed j));
      name = k.name;
      namespace = k.namespace;
      notified = k.notified;
    }
  ]
    where
      removed :
          (j : String)
          → lookup j (
              remove
                (pod_key (s.pods pod))
                (insert (pod_key (s.pods pod)) (new_entry pod s) s.cache))
            ≡ (if str_eq (pod_key (s.pods pod)) j then none else lookup j s.cache)
      removed j = ground (
        arith,
        lookup-remove (pod_key (s.pods pod)) j
            (insert (pod_key (s.pods pod)) (new_entry pod s) s.cache)
            (insert-IsTable (pod_key (s.pods pod)) (new_entry pod s) s.cache table),
        lookup-insert (pod_key (s.pods pod)) j (new_entry pod s) s.cache,
      )

      failed : Failed pod (cached pod s) t
      failed =
          Ends-err (Finished pod s.next_monitor (cached pod s)) (Failed pod (cached pod s))
            (create_pod-Ends pod s) h

  -- After a CreatePod that returned an error, either the pod is not in the cache, or a DeletePod of
  -- it panics, since it calls the cancel function of a monitor that was never started.
  pub create_pod_error-delete_pod :
      IsTable s.cache
      → (e : String) → create_pod pod s ≡ done (err e) t
      → (cache_get (pod_key (t.pods pod)) t ≡ none)
        ⊎ (delete_pod pod t ≡ crash "call of a nil function" t)
  unfolding cache_get
  create_pod_error-delete_pod table e h = elim n.cache [
    | inl gone ↦ inl (at_key none gone)
    | inr (kept, idle) ↦ inr (
        delete_pod-unstarted pod t (new_entry pod s) s.next_monitor
          (at_key (some (new_entry pod s)) kept) refl idle)
  ]
    where
      n : NotCreated pod s t
      n = create_pod-NotCreated table e h

      at_key :
          (entry : Option MetaPod)
          → Changed (pod_key (s.pods pod)) entry s t
          → cache_get (pod_key (t.pods pod)) t ≡ entry
      at_key entry c =
          rw (n.namespace, n.name)
            (c (pod_key (s.pods pod))
              ∙ ap (λ (b : Bool). if b then entry else lookup (pod_key (s.pods pod)) s.cache)
                  (eq_refl (pod_key (s.pods pod))))
