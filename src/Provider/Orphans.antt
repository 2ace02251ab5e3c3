-- ===== src/Provider/Orphans.antt =====
-- CreatePod of a pod that is in the cache already.
use aws_virtual_kubelet.Base.{
  ℕ, ◌<◌, String, Bool-cases, ◌≡◌, ◌≢◌, some, inl, inr, arith, str_eq, sym, ◌∙◌, subst,
  Entries-lookup,
}
use aws_virtual_kubelet.Cloud.{Env, ok}
use aws_virtual_kubelet.Process.{Process, MetaPod, done}
use aws_virtual_kubelet.Cache.{cache_get}
use aws_virtual_kubelet.Cache.Soundness.{IsBelow, IsMonitored, AreApart-lookup}
use aws_virtual_kubelet.Provider.Soundness.{IsSoundProcess}
use aws_virtual_kubelet.Provider.Creation.{Created, create_pod-Created}
use aws_virtual_kubelet.Provider.{pod_key, create_pod}

module _ {W : Type 0} ⦃env : Env W⦄ (pod : ℕ) (s t : Process W) (entry : MetaPod) (old : ℕ)
    (found : cache_get (pod_key (s.pods pod)) s ≡ some entry) (monitored : entry.monitor ≡ some old)
    (sound : IsSoundProcess s) where
  old-lt : old < s.next_monitor
  unfolding cache_get
  old-lt = subst (IsBelow s.next_monitor) monitored (
      Entries-lookup (IsMonitored s.next_monitor) (pod_key (s.pods pod)) entry s.cache
        sound.monitored found)

  -- In a process whose cache entries have monitors of their own, a CreatePod of a pod whose key is
  -- in the cache, that returns no error, leaves the monitor of the old entry as it was, and running
  -- if it was running, while no entry of the cache leads to it any more.
  pub create_pod-orphan :
      create_pod pod s ≡ done (ok tt) t
      → (t.pod_monitors old ≡ s.pod_monitors old)
        × ((key : String) (e : MetaPod) → cache_get key t ≡ some e → e.monitor ≢ some old)
  unfolding cache_get
  create_pod-orphan made =
      let c : Created pod s t = create_pod-Created pod s t made in
      (
        c.other_monitors old (λ same. omega (arith, same, old-lt)),
        λ key e at same. elim (Bool-cases (str_eq (pod_key (s.pods pod)) key)) [
          | inl equal ↦ absurd (ground (arith, c.cache key, old-lt, equal))
          | inr differs ↦
              AreApart-lookup (pod_key (s.pods pod)) key entry e s.cache sound.apart differs found
                (ground (arith, c.cache key, differs)) (same ∙ sym monitored)
        ],
      )
