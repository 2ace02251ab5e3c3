-- ===== src/Provider/Isolation.antt =====
-- DeletePod and the monitors of the other cached pods.
use aws_virtual_kubelet.Base.{ℕ, String, Bool, false, ◌≡◌, ◌≢◌, some, arith, str_eq, ap, sym, ◌∙◌}
use aws_virtual_kubelet.Cloud.{Env, Result, ok, err}
use aws_virtual_kubelet.Process.{Process, MetaPod, done}
use aws_virtual_kubelet.Cache.{cache_get}
use aws_virtual_kubelet.Cache.Soundness.{AreApart-lookup}
use aws_virtual_kubelet.Provider.Soundness.{IsSoundProcess}
use aws_virtual_kubelet.Provider.Removal.{
  Deleted, NotDeleted, delete_pod-Deleted, delete_pod-NotDeleted,
}
use aws_virtual_kubelet.Provider.{pod_key, delete_pod}

module _ {W : Type 0} ⦃env : Env W⦄ (pod : ℕ) (s t : Process W) (entry : MetaPod) (m : ℕ)
    (called : Bool) (found : cache_get (pod_key (s.pods pod)) s ≡ some entry)
    (monitored : entry.monitor ≡ some m)
    (has_started : (s.pod_monitors m).cancel ≡ some called) where
  differ :
      IsSoundProcess s
      → (key : String) (other : MetaPod) (j : ℕ) → str_eq (pod_key (s.pods pod)) key ≡ false
      → cache_get key s ≡ some other
      → other.monitor ≡ some j
      → j ≢ m
  unfolding cache_get
  differ sound key other j distinct is_other its same =
      AreApart-lookup (pod_key (s.pods pod)) key entry other s.cache sound.apart distinct found
        is_other (its ∙ ap some same ∙ sym monitored)

  -- In a sound process a DeletePod of a pod whose monitor was started, whatever it returns, leaves
  -- every other cached pod its entry and its monitor as they were.
  pub delete_pod-others :
      IsSoundProcess s
      → (r : Result (Unit {0})) → delete_pod pod s ≡ done r t
      → (key : String) (other : MetaPod) (j : ℕ) → str_eq (pod_key (s.pods pod)) key ≡ false
      → cache_get key s ≡ some other
      → other.monitor ≡ some j
      → (cache_get key t ≡ some other) × (t.pod_monitors j ≡ s.pod_monitors j)
  unfolding cache_get
  delete_pod-others sound (ok x) e key other j distinct is_other its =
      let d : Deleted pod m s t =
        delete_pod-Deleted pod s t entry m called found monitored has_started sound.table e in
      (
        ground (arith, d.cache key),
        d.other_monitors j (differ sound key other j distinct is_other its),
      )
  delete_pod-others sound (err x) e key other j distinct is_other its =
      let d : NotDeleted m s t =
        delete_pod-NotDeleted pod s t entry m called found monitored has_started x e in
      (ground (arith, d.cache), d.other_monitors j (differ sound key other j distinct is_other its))
