-- ===== src/Provider/Lookup.antt =====
-- UpdatePod and GetPod: what is read after an update.
use aws_virtual_kubelet.Base.{
  ℕ, String, ◌≡◌, some, lookup, lookup-insert, arith, str_eq, if◌then◌else◌,
}
use text.Mathlib.TextPositions.{eq_refl}
use aws_virtual_kubelet.Cloud.{Env, ok}
use aws_virtual_kubelet.Process.{Process, MetaPod, done, after}
use aws_virtual_kubelet.Cache.{cache_get, cache_set, cache_update_pod}
use aws_virtual_kubelet.Provider.{pod_key, update_pod, get_pod, get_pod_status}

module _ {W : Type 0} ⦃env : Env W⦄ (pod : ℕ) (s : Process W) where
  -- An UpdatePod of a pod that is in the cache returns no error. GetPod and GetPodStatus then find
  -- the pod that was given under its name, whose entry has kept its monitor, and the entries of all
  -- other keys are as before.
  get_pod-update_pod :
      (m : MetaPod)
      → cache_get (pod_key (s.pods pod)) s ≡ some m
      → let t = after (update_pod pod s) in
        let p = s.pods pod in
        (update_pod pod s ≡ done (ok tt) t)
        × (get_pod p.namespace p.name t ≡ done (ok p) t)
        × (get_pod_status p.namespace p.name t ≡ done (ok p.status) t)
        × ((k : String)
            → lookup k t.cache
              ≡ (if str_eq (pod_key p) k then some (record m { pod = pod }) else lookup k s.cache))
  unfolding update_pod cache_update_pod cache_get cache_set get_pod get_pod_status
  get_pod-update_pod m found =
      let p = s.pods pod in
      let inserted = λ (k : String). lookup-insert (pod_key p) k (record m { pod = pod }) s.cache in
      ground (arith, inserted (pod_key p), eq_refl (pod_key p), inserted)
