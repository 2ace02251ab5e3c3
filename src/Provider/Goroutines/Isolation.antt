-- ===== src/Provider/Goroutines/Isolation.antt =====
-- CreatePod and DeletePod among calls for other keys.
use aws_virtual_kubelet.Base.{
  ℕ, ◌≡◌, ◌≢◌, refl, subst, String, List, none, some, str_eq, false, lookup,
}
use aws_virtual_kubelet.Cloud.{Env, ok}
use aws_virtual_kubelet.Process.{Process}
use aws_virtual_kubelet.Provider.{pod_key}
use aws_virtual_kubelet.Provider.Goroutines.{
  ended, Workers, interleave, Request, create_pod_request, delete_pod_request, begin, begun, key_of,
}
use aws_virtual_kubelet.Provider.Goroutines.Owners.{IsOwned}
use aws_virtual_kubelet.Provider.Goroutines.Points.{IsAt}
use aws_virtual_kubelet.Provider.Goroutines.Reached.{
  Started, Reached, Moves-Reached, advance-Reached,
}
use aws_virtual_kubelet.Provider.Goroutines.Emptied.{Emptied, Moves-Emptied, advance-Emptied}
use aws_virtual_kubelet.Provider.Goroutines.Ownership.{begun-Inv}
use aws_virtual_kubelet.Provider.Goroutines.Among.{interleave-Of}

module _ {W : Type 0} ⦃env : Env W⦄ (order : List ℕ) (s : Process W) (requests : ℕ → Request)
    (v : Workers W) (owned : IsOwned s) (i pod : ℕ)
    (others : (j : ℕ) → j ≢ i → str_eq (key_of s (requests j)) (pod_key (s.pods pod)) ≡ false) where
  -- In a process in which the monitor of each cache entry watches a pod with the key of the entry, let
  -- goroutines make any calls of CreatePod, UpdatePod and DeletePod, of which one is a CreatePod and
  -- the others are for other keys. After any interleaving of their steps in which none panics, if that
  -- CreatePod is over without an error, the cache has its pod under its key, with a monitor that
  -- watches the pod, is started and is not cancelled.
  pub interleave-Started :
      requests i ≡ create_pod_request pod
      → interleave order (begun s requests) ≡ some v
      → v.goroutines i ≡ ended (ok tt)
      → Started (pod_key (s.pods pod)) pod v.process
  unfolding begin
  interleave-Started asks e over =
      let keys : ℕ → String = λ j. key_of s (requests j) in
      let key = pod_key (s.pods pod) in
      let at_key : keys i ≡ key = rw asks refl in
      subst (λ g. Reached key pod g v.process) over
        (interleave-Of keys i (Reached key pod)
          (λ j g t u differs moves. Moves-Reached key pod g (others j differs) moves)
          (λ q k e f t h. h)
          (λ g t h a. advance-Reached key pod g t (subst (λ k. IsAt k t g) at_key a)) order
          (begun s requests) v e (begun-Inv s requests owned) (rw asks refl))

  -- In a process in which the monitor of each cache entry watches a pod with the key of the entry, let
  -- goroutines make any calls of CreatePod, UpdatePod and DeletePod, of which one is a DeletePod and
  -- the others are for other keys. After any interleaving of their steps in which none panics, if that
  -- DeletePod is over without an error, the key of its pod is not in the cache.
  pub interleave-Emptied :
      requests i ≡ delete_pod_request pod
      → interleave order (begun s requests) ≡ some v
      → v.goroutines i ≡ ended (ok tt)
      → lookup (pod_key (s.pods pod)) v.process.cache ≡ none
  unfolding begin
  interleave-Emptied asks e over =
      let keys : ℕ → String = λ j. key_of s (requests j) in
      let key = pod_key (s.pods pod) in
      let at_key : keys i ≡ key = rw asks refl in
      subst (λ g. Emptied key g v.process) over
        (interleave-Of keys i (Emptied key)
          (λ j g t u differs moves. Moves-Emptied key g (others j differs) moves) (λ q k e f t h. h)
          (λ g t h a. advance-Emptied key g t h (subst (λ k. IsAt k t g) at_key a)) order
          (begun s requests) v e (begun-Inv s requests owned) (rw asks tt))
