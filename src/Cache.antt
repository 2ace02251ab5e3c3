-- ===== src/Cache.antt =====
-- internal/ec2provider/podcache.go: the pods that the provider knows, by namespace and name. The
-- order of a Go map is not specified; that of the table stands for it.
pub mod Population
pub mod Soundness
use aws_virtual_kubelet.Base.{
  ℕ, suc, String, List, [], ◌∷◌, map, Option, none, some, Table, lookup, insert, remove, values,
}
use aws_virtual_kubelet.Kube.{Pod}
use aws_virtual_kubelet.Cloud.{Result, ok, err}
use aws_virtual_kubelet.Process.{Process, MetaPod, Go, ◌>>=◌, ◌>>◌, pure, get, modify, update}
use aws_virtual_kubelet.Utils.{get_pod_cache_key}
use aws_virtual_kubelet.Base.{str_append, false}

abbrev pub with_cache : {W : Type 0} → Table MetaPod → Process W → Process W
with_cache m s = record s { cache = m }

module _ {W : Type 0} where
  -- `GetList`, `GetPodList`
  unfoldable pub get_list : Process W → List MetaPod
  get_list s = values s.cache

  unfoldable pub get_pod_list : Process W → List Pod
  unfolding get_list
  get_pod_list s = map (λ m. s.pods m.pod) (get_list s)

  -- `Get`, `Set`, `Delete`
  unfoldable pub cache_get : String → Process W → Option MetaPod
  cache_get key s = lookup key s.cache

  unfoldable pub cache_set : String → MetaPod → Process W → Process W
  cache_set key val s = with_cache (insert key val s.cache) s

  unfoldable pub cache_delete : String → Process W → Process W
  cache_delete key s = with_cache (remove key s.cache) s

  -- `UpdatePod`
  unfoldable pub cache_update_pod : String → ℕ → Go W (Result (Unit {0}))
  unfolding cache_get cache_set
  cache_update_pod key pod = do
    s ← get
    elim (cache_get key s) [
      | none ↦
          pure (err (str_append "Can't find cache member with key " (str_append key " to update")))
      | some meta_pod ↦ do modify (cache_set key (record meta_pod { pod = pod })); pure (ok tt)
    ]

  -- a copy of a pod in the store, and its pointer
  abbrev pub store_copy : Pod → Go W ℕ
  store_copy pod = do
    s ← get
    modify λ t. record t { pods = update t.pods t.next_pod pod; next_pod = suc t.next_pod }
    pure s.next_pod

  -- `Populate`: the pods have no monitor yet
  unfoldable pub populate : List Pod → Go W (Unit {0})
  unfolding cache_set
  populate [] = pure tt
  populate (pod ∷ items) = do
    copy ← store_copy pod
    modify (
        cache_set (get_pod_cache_key pod.namespace pod.name)
          (record { pod = copy; monitor = none; notifier = false }))
    populate items
