-- ===== src/Provider/Soundness.antt =====
-- The calls of a provider on its pods, one after the other, and the cache between them.
use aws_virtual_kubelet.Base.{ℕ, String, ◌≡◌, inl, inr, refl, Option, none, some, arith}
use aws_virtual_kubelet.Kube.{PodStatus}
use aws_virtual_kubelet.Cloud.{Env, Result, ok, err}
use aws_virtual_kubelet.Process.{Process, MetaPod, Go, done, after, pure, panic, ◌>>◌}
use aws_virtual_kubelet.Process.Frame.{
  Keeps, Ends-Returns, after-Returns, >>=-Returns, Returns, Returns-done,
}
use aws_virtual_kubelet.Cache.{cache_get, cache_set, cache_delete, cache_update_pod}
use aws_virtual_kubelet.Cache.Soundness.{IsSound, insert-IsSound, remove-IsSound, replace-IsSound}
use aws_virtual_kubelet.Compute.{delete_compute}
use aws_virtual_kubelet.Compute.Frame.{delete_compute-Keeps}
use aws_virtual_kubelet.Health.Monitor.{CheckResult}
use aws_virtual_kubelet.Health.Handler.{handle_check_result}
use aws_virtual_kubelet.WarmPool.Depth.{check_pools}
use aws_virtual_kubelet.WarmPool.Refresh.{refresh_pools}
use aws_virtual_kubelet.WarmPool.Rounds.{check_pools-Keeps, refresh_pools-Keeps}
use aws_virtual_kubelet.Provider.Monitoring.{
  stop_pod_monitor, stop, notify, notify_pods, notify_pod_delete,
}
use aws_virtual_kubelet.Provider.Upkeep.{
  replace_pod, log_not_stopped, recreate_pod, handle_pod_status_update,
}
use aws_virtual_kubelet.Provider.Removal.{Gone, delete_stopped-Ends}
use aws_virtual_kubelet.Provider.Creation.Steps.{
  Finished, Failed, cached, new_entry, create_pod-Ends,
}
use aws_virtual_kubelet.Provider.{pod_key, create_pod, update_pod, delete_pod, delete_stopped}

-- One entry to a key, and to each entry a monitor of its own.
abbrev pub IsSoundProcess : {W : Type 0} → Process W → Type 0
IsSoundProcess s = IsSound s.next_monitor s.cache

Keeps-IsSound :
    {W : Type 0} {q : ℕ} {s t : Process W} → Keeps q s t → IsSoundProcess s → IsSoundProcess t
Keeps-IsSound k h = rw (k.next_monitor, k.cache) h

module _ {W : Type 0} ⦃env : Env W⦄ (pod : ℕ) where
  cached-IsSound : (s : Process W) → IsSoundProcess s → IsSoundProcess (cached pod s)
  unfolding cache_set
  cached-IsSound s h =
      insert-IsSound s.next_monitor (pod_key (s.pods pod)) (new_entry pod s) s.cache refl h

  pub create_pod-IsSound :
      (s : Process W) → IsSoundProcess s → Returns IsSoundProcess (create_pod pod s)
  unfolding cache_delete
  create_pod-IsSound s h =
      Ends-Returns (Finished pod s.next_monitor (cached pod s)) (Failed pod (cached pod s))
        IsSoundProcess (create_pod pod s) finished failed (create_pod-Ends pod s)
    where
      c : IsSoundProcess (cached pod s)
      c = cached-IsSound s h

      finished : (t : Process W) → Finished pod s.next_monitor (cached pod s) t → IsSoundProcess t
      finished t f = rw (f.next_monitor, f.cache) c

      failed : (t : Process W) → Failed pod (cached pod s) t → IsSoundProcess t
      failed t (inl k) = Keeps-IsSound k c
      failed t (inr k) = Keeps-IsSound k (remove-IsSound _ _ _ c)

  delete_stopped-IsSound :
      (key : String) (m : MetaPod) (s : Process W)
      → IsSoundProcess s
      → Returns IsSoundProcess (delete_stopped pod key m s)
  delete_stopped-IsSound key m s h =
      Ends-Returns (Gone pod key s) (Keeps pod s) IsSoundProcess (delete_stopped pod key m s)
        (λ t g. rw (g.next_monitor, g.cache) (remove-IsSound s.next_monitor key s.cache h))
        (λ t k. Keeps-IsSound k h) (delete_stopped-Ends pod key m s)

  stop_pod_monitor-IsSound :
      (m : Option MetaPod) (s : Process W)
      → IsSoundProcess s
      → Returns IsSoundProcess (stop_pod_monitor m s)
  unfolding stop_pod_monitor stop
  stop_pod_monitor-IsSound none s h = h
  stop_pod_monitor-IsSound (some m) s h = ground arith

  delete_pod-IsSound :
      (s : Process W) → IsSoundProcess s → Returns IsSoundProcess (delete_pod pod s)
  unfolding delete_pod
  delete_pod-IsSound s h =
      let key = pod_key (s.pods pod) in
      >>=-Returns IsSoundProcess IsSoundProcess (stop_pod_monitor (cache_get key s))
        (go_on key (cache_get key s)) s (stop_pod_monitor-IsSound (cache_get key s) s h)
        (λ stopped t k. rest key (cache_get key s) stopped t k)
    where
      go_on : String → Option MetaPod → Result (Unit {0}) → Go W (Result (Unit {0}))
      go_on key entry stopped = elim entry [
        | none ↦ panic "nil pointer dereference"
        | some m ↦ elim stopped [ err e ↦ pure (err e) | ok _ ↦ delete_stopped pod key m ]
      ]

      rest :
          (key : String) (entry : Option MetaPod) (stopped : Result (Unit {0})) (t : Process W)
          → IsSoundProcess t
          → Returns IsSoundProcess (go_on key entry stopped t)
      rest key none stopped t k = tt
      rest key (some m) (err e) t k = k
      rest key (some m) (ok _) t k = delete_stopped-IsSound key m t k

  update_pod-IsSound :
      (s : Process W) → IsSoundProcess s → Returns IsSoundProcess (update_pod pod s)
  unfolding update_pod cache_update_pod cache_get cache_set
  update_pod-IsSound s h = grind (arith, replace-IsSound s.next_monitor (pod_key (s.pods pod)))

  replace_pod-IsSound :
      (key : String) (s : Process W)
      → IsSoundProcess s
      → Returns IsSoundProcess (replace_pod pod key s)
  unfolding replace_pod notify_pod_delete notify cache_delete
  replace_pod-IsSound key s h =
      let k : Keeps pod s (after (delete_compute pod s)) = delete_compute-Keeps pod pod s in
      grind (arith, remove-IsSound s.next_monitor key s.cache h, create_pod-IsSound)

  recreate_pod-IsSound :
      (s : Process W) → IsSoundProcess s → Returns IsSoundProcess (recreate_pod pod s)
  unfolding recreate_pod
  recreate_pod-IsSound s h =
      let key = pod_key (s.pods pod) in
      >>=-Returns IsSoundProcess IsSoundProcess (stop_pod_monitor (cache_get key s))
        (go_on key (cache_get key s)) s (stop_pod_monitor-IsSound (cache_get key s) s h)
        (λ stopped t k. rest key (cache_get key s) stopped t k)
    where
      go_on : String → Option MetaPod → Result (Unit {0}) → Go W (Unit {0})
      go_on key entry stopped = do log_not_stopped entry stopped; replace_pod pod key

      rest :
          (key : String) (entry : Option MetaPod) (stopped : Result (Unit {0})) (t : Process W)
          → IsSoundProcess t
          → Returns IsSoundProcess (go_on key entry stopped t)
      rest key entry (ok _) t k = replace_pod-IsSound key t k
      rest key none (err e) t k = tt
      rest key (some m) (err e) t k = replace_pod-IsSound key t k

  handle_pod_status_update-IsSound :
      (status : PodStatus) (s : Process W)
      → IsSoundProcess s
      → Returns IsSoundProcess (handle_pod_status_update pod status s)
  unfolding handle_pod_status_update notify
  handle_pod_status_update-IsSound status s h = ground arith

handle_check_result-IsSound :
    {W : Type 0} (result : CheckResult) (s : Process W)
    → IsSoundProcess s
    → Returns IsSoundProcess (handle_check_result result s)
unfolding handle_check_result
handle_check_result-IsSound result s h = ground arith

notify_pods-IsSound :
    {W : Type 0} (s : Process W) → IsSoundProcess s → Returns IsSoundProcess (notify_pods s)
unfolding notify_pods
notify_pods-IsSound s h = h

-- One call that returns, with whatever result.
pub data Call {W : Type 0} ⦃env : Env W⦄ (s t : Process W) : Type 0 where
  create_call : (pod : ℕ) (r : Result (Unit {0})) → create_pod pod s ≡ done r t → Call s t
  update_call : (pod : ℕ) (r : Result (Unit {0})) → update_pod pod s ≡ done r t → Call s t
  delete_call : (pod : ℕ) (r : Result (Unit {0})) → delete_pod pod s ≡ done r t → Call s t
  recreate_call : (pod : ℕ) (r : Unit {0}) → recreate_pod pod s ≡ done r t → Call s t
  status_call :
      (pod : ℕ) (status : PodStatus) (r : Result (Unit {0}))
      → handle_pod_status_update pod status s ≡ done r t
      → Call s t
  check_call :
      (result : CheckResult) (r : Unit {0}) → handle_check_result result s ≡ done r t → Call s t
  notify_call : (r : Unit {0}) → notify_pods s ≡ done r t → Call s t
  depth_call : (r : Unit {0}) → check_pools s.config.warm_pool_config s ≡ done r t → Call s t
  refresh_call : (r : Unit {0}) → refresh_pools s.config.warm_pool_config s ≡ done r t → Call s t

-- Any number of them.
pub data Calls {W : Type 0} ⦃env : Env W⦄ : Process W → Process W → Type 0 where
  no_call : (s : Process W) → Calls s s
  then_call : (s t u : Process W) → Calls s t → Call t u → Calls s u

module _ {W : Type 0} ⦃env : Env W⦄ where
  Call-IsSound : (s t : Process W) → Call s t → IsSoundProcess s → IsSoundProcess t
  Call-IsSound s t (create_call pod r e) h =
      Returns-done IsSoundProcess (create_pod-IsSound pod s h) e
  Call-IsSound s t (update_call pod r e) h =
      Returns-done IsSoundProcess (update_pod-IsSound pod s h) e
  Call-IsSound s t (delete_call pod r e) h =
      Returns-done IsSoundProcess (delete_pod-IsSound pod s h) e
  Call-IsSound s t (recreate_call pod r e) h =
      Returns-done IsSoundProcess (recreate_pod-IsSound pod s h) e
  Call-IsSound s t (status_call pod status r e) h =
      Returns-done IsSoundProcess (handle_pod_status_update-IsSound pod status s h) e
  Call-IsSound s t (check_call result r e) h =
      Returns-done IsSoundProcess (handle_check_result-IsSound result s h) e
  Call-IsSound s t (notify_call r e) h = Returns-done IsSoundProcess (notify_pods-IsSound s h) e
  Call-IsSound s t (depth_call r e) h =
      Returns-done IsSoundProcess
        (after-Returns IsSoundProcess (check_pools s.config.warm_pool_config s)
          (Keeps-IsSound (check_pools-Keeps 0 s.config.warm_pool_config s) h))
        e
  Call-IsSound s t (refresh_call r e) h =
      Returns-done IsSoundProcess
        (after-Returns IsSoundProcess (refresh_pools s.config.warm_pool_config s)
          (Keeps-IsSound (refresh_pools-Keeps 0 s.config.warm_pool_config s) h))
        e

  -- Whatever calls are made one after the other, with whatever results, each key keeps at most one
  -- entry, every entry has a monitor, which was made before, and no two entries share one.
  pub Calls-IsSound : (s t : Process W) → Calls s t → IsSoundProcess s → IsSoundProcess t
  Calls-IsSound s t (no_call _) h = h
  Calls-IsSound s t (then_call _ u _ calls one) h = Call-IsSound u t one (Calls-IsSound s u calls h)
