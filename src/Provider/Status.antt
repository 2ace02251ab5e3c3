-- ===== src/Provider/Status.antt =====
-- The start of a process from the pods of its node, and the rounds of its status loop.
use aws_virtual_kubelet.Base.{
  lookup, ℕ, suc, ◌+◌, ◌≡◌, ◌≢◌, ◌∙◌, ap, String, List, [], ◌∷◌, Option, none, some, Table, values,
  All, All-map, length, Entries, insert, lookup-keys, arith,
}
use aws_virtual_kubelet.Kube.{Pod}
use aws_virtual_kubelet.Cloud.{Env}
use aws_virtual_kubelet.Process.{Process, MetaPod, Outcome, Go, done, crash, after, panic}
use aws_virtual_kubelet.Utils.{get_pod_cache_key}
use aws_virtual_kubelet.Cache.{cache_get, with_cache, populate}
use aws_virtual_kubelet.Cache.Population.{
  populate-known, pod_in, last_listed, pod_in-same, populate-last_listed,
}
use aws_virtual_kubelet.Cache.Soundness.{IsMonitored, IsBelow}
use aws_virtual_kubelet.Provider.Soundness.{IsSoundProcess}
use aws_virtual_kubelet.Provider.Rehydration.{IsWatched, populate_cache-Rehydrated}
use aws_virtual_kubelet.Provider.Upkeep.{populate_cache, pod_stats, status_round, monitor_states}
use aws_virtual_kubelet.Provider.Startup.{rehydrate}

module _ {W : Type 0} ⦃env : Env W⦄ where
  rehydrate-populate_cache :
      (items : List Pod) (s : Process W)
      → let u = after (populate items (with_cache [] s)) in
        rehydrate items s ≡ populate_cache u.cache u
  unfolding rehydrate
  rehydrate-populate_cache items s =
      ap
        (λ (o : Outcome W (Unit {0})). (elim o [
          | done _ t ↦ populate_cache t.cache t
          | crash e t ↦ crash e t
        ]))
        (populate-known items (with_cache [] s) tt).0

  -- Reading the pods of the node at the start always returns. The cache is then sound, knows every
  -- pod that was read, and each of its entries has a started monitor on a handler that receives. The
  -- entry of a key has the last pod with that key that was read, and there is none without one.
  pub rehydrate-IsWatched :
      (items : List Pod) (s : Process W)
      → let t = after (rehydrate items s) in
        (rehydrate items s ≡ done tt t)
        × IsSoundProcess t
        × Entries (IsWatched t) t.cache
        × All (λ p. cache_get (get_pod_cache_key p.namespace p.name) t ≢ none) items
        × ((key : String) → pod_in t.pods (cache_get key t) ≡ last_listed key items none)
  unfolding rehydrate cache_get lookup
  rehydrate-IsWatched items s =
      let filled = populate-known items (with_cache [] s) tt in
      let u = after (populate items (with_cache [] s)) in
      let monitored = populate_cache-Rehydrated u.cache u filled.1 in
      rw (rehydrate-populate_cache items s) (
        monitored.0,
        monitored.1.sound,
        monitored.1.watched,
        All-map
            (λ p.
              lookup-keys (get_pod_cache_key p.namespace p.name)
                (after (populate_cache u.cache u)).cache u.cache monitored.1.same_keys)
            items filled.2,
        λ key. rw monitored.1.store (
            pod_in-same u.pods key (after (populate_cache u.cache u)).cache u.cache
              monitored.1.same_keys monitored.1.same_pods
            ∙ populate-last_listed items key (with_cache [] s) tt),
      )

  pod_stats-total :
      (cache : Table MetaPod) (stats : Table String) (k next : ℕ) (s : Process W)
      → Entries (IsMonitored next) cache
      → (result : Table String) × (pod_stats (values cache) stats k s
          ≡ done (result, length cache + k) s)
  unfolding pod_stats
  pod_stats-total [] stats k next s h = (stats, ap (λ n. done (stats, n) s) (omega arith))
  pod_stats-total ((key, e) ∷ cache) stats k next s h = go e.monitor h.0 (λ m.
      pod_stats-total cache (insert (s.pods e.pod).name (monitor_states s m) stats) (suc k) next s
        h.1)
    where
      go :
          (o : Option ℕ)
          → IsBelow next o
          → ((m : ℕ)
              → (result : Table String) × (pod_stats
                    (values cache)
                    (insert (s.pods e.pod).name (monitor_states s m) stats)
                    (suc k)
                    s
                  ≡ done (result, length cache + suc k) s))
          → (result : Table String) × ((elim o as (λ _. Go W (Table String × ℕ)) [
            | none ↦ panic "nil pointer dereference"
            | some m ↦
                pod_stats
                  (values cache)
                  (insert (s.pods e.pod).name (monitor_states s m) stats)
                  (suc k)
          ])
                s
              ≡ done (result, suc (length cache) + k) s)
      go none b rest = absurd b
      go (some m) b rest = ((rest m).0, (rest m).1 ∙ ap (λ n. done ((rest m).0, n) s) (omega arith))

  -- A round of the status loop over a sound cache returns, does not panic, counts every cached pod,
  -- and leaves the process as it is.
  pub status_round-total :
      (s : Process W)
      → IsSoundProcess s
      → (result : Table String) × (status_round s ≡ done (result, length s.cache) s)
  unfolding status_round
  status_round-total s sound =
      let round = pod_stats-total s.cache [] 0 s.next_monitor s sound.monitored in
      (round.0, round.1 ∙ ap (λ n. done (round.0, n) s) (omega arith))
