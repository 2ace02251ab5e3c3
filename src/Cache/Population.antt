-- ===== src/Cache/Population.antt =====
-- Populate: which pods the cache knows afterwards.
use aws_virtual_kubelet.Base.{
  ℕ, ◌<◌, Option, some, Table, Entries, Entries-insert, Entries-map, ==_iff, if◌then◌else◌, str_eq,
  ap, ◌∙◌, keys, values, map, suc, String, ◌≡◌, ◌≢◌, List, [], ◌∷◌, none, All, IsTable, lookup,
  lookup-insert, insert-IsTable, arith, refl, false,
}
use text.Mathlib.TextPositions.{eq_refl}
use aws_virtual_kubelet.Kube.{Pod}
use aws_virtual_kubelet.Utils.{get_pod_cache_key}
use aws_virtual_kubelet.Process.{Process, MetaPod, done, after, update}
use aws_virtual_kubelet.Cache.{cache_get, cache_set, populate}

module _ {W : Type 0} where
  -- the process after the first round of the loop
  abbrev populated : Pod → Process W → Process W
  unfolding cache_set
  populated pod s =
      cache_set (get_pod_cache_key pod.namespace pod.name)
        (record { pod = s.next_pod; monitor = none; notifier = false })
        (record s { pods = update s.pods s.next_pod pod; next_pod = suc s.next_pod })

  -- What Populate leaves known before.
  populate-keeps :
      (items : List Pod) (key : String) (s : Process W)
      → lookup key s.cache ≢ none
      → lookup key (after (populate items s)).cache ≢ none
  unfolding populate cache_set
  populate-keeps [] key s known = known
  populate-keeps (pod ∷ items) key s known = populate-keeps items key (populated pod s) (
      ground (
        arith,
        lookup-insert (get_pod_cache_key pod.namespace pod.name) key
            (record { pod = s.next_pod; monitor = none; notifier = false }) s.cache,
      ))

  -- Populate returns, leaves one entry to a key in the cache, and the cache knows all the pods that
  -- were given, under their keys.
  pub populate-known :
      (items : List Pod) (s : Process W)
      → IsTable s.cache
      → let t = after (populate items s) in
        (populate items s ≡ done tt t)
        × IsTable t.cache
        × All (λ p. cache_get (get_pod_cache_key p.namespace p.name) t ≢ none) items
  unfolding populate cache_set cache_get
  populate-known [] s table = (refl, table, tt)
  populate-known (pod ∷ items) s table =
      let key = get_pod_cache_key pod.namespace pod.name in
      let entry : MetaPod = record { pod = s.next_pod; monitor = none; notifier = false } in
      let rest = populate-known items (populated pod s) (insert-IsTable key entry s.cache table) in
      (
        rest.0,
        rest.1,
        (
          populate-keeps items key (populated pod s)
              (ground (arith, lookup-insert key key entry s.cache, eq_refl key)),
          rest.2,
        ),
      )

-- The last of the pods with the key, if there is one, and `found` otherwise.
abbrev pub last_listed : String → List Pod → Option Pod → Option Pod
last_listed key [] found = found
last_listed key (p ∷ items) found =
    last_listed key items
      (if str_eq (get_pod_cache_key p.namespace p.name) key then some p else found)

-- The pod that the store has for the entry.
abbrev pub pod_in : (ℕ → Pod) → Option MetaPod → Option Pod
pod_in pods none = none
pod_in pods (some e) = some (pods e.pod)

abbrev pub IsStored : ℕ → Table MetaPod → Type 0
IsStored next = Entries (λ e. e.pod < next)

pod_in-update :
    (pods : ℕ → Pod) (next : ℕ) (p : Pod) (key : String) (cache : Table MetaPod)
    → IsStored next cache
    → pod_in (update pods next p) (lookup key cache) ≡ pod_in pods (lookup key cache)
unfolding lookup
pod_in-update pods next p key [] h = refl
pod_in-update pods next p key ((k, e) ∷ cache) h =
    ground (arith, ==_iff next e.pod, pod_in-update pods next p key cache h.1)

module _ {W : Type 0} where
  populated-pod_in :
      (p : Pod) (key : String) (s : Process W)
      → IsStored s.next_pod s.cache
      → pod_in (populated p s).pods (lookup key (populated p s).cache) ≡ (
          if str_eq (get_pod_cache_key p.namespace p.name) key
          then some p
          else pod_in s.pods (lookup key s.cache))
  unfolding cache_set
  populated-pod_in p key s h =
      let mine = get_pod_cache_key p.namespace p.name in
      let entry : MetaPod = record { pod = s.next_pod; monitor = none; notifier = false } in
      ap (pod_in (update s.pods s.next_pod p)) (lookup-insert mine key entry s.cache)
      ∙ (ground
          (arith, ==_iff s.next_pod s.next_pod, pod_in-update s.pods s.next_pod p key s.cache h))

  -- After Populate the entry of a key leads to the last of the given pods with that key.
  pub populate-last_listed :
      (items : List Pod) (key : String) (s : Process W)
      → IsStored s.next_pod s.cache
      → let t = after (populate items s) in
        pod_in t.pods (lookup key t.cache)
        ≡ last_listed key items (pod_in s.pods (lookup key s.cache))
  unfolding populate cache_set
  populate-last_listed [] key s h = refl
  populate-last_listed (p ∷ items) key s h =
      let mine = get_pod_cache_key p.namespace p.name in
      let entry : MetaPod = record { pod = s.next_pod; monitor = none; notifier = false } in
      populate-last_listed items key (populated p s) (
        Entries-insert _ mine entry s.cache (omega arith)
          (Entries-map (λ e b. omega (arith, b)) s.cache h))
      ∙ ap (last_listed key items) (populated-pod_in p key s h)

-- Caches with the same keys and pods lead to the same pods.
pub pod_in-same :
    (pods : ℕ → Pod) (key : String) (m n : Table MetaPod)
    → keys m ≡ keys n
    → map MetaPod.pod (values m) ≡ map MetaPod.pod (values n)
    → pod_in pods (lookup key m) ≡ pod_in pods (lookup key n)
unfolding lookup
pod_in-same pods key [] [] same same_pods = refl
pod_in-same pods key [] (e ∷ n) same same_pods = absurd (cc same)
pod_in-same pods key (e ∷ m) [] same same_pods = absurd (cc same)
pod_in-same pods key ((j, v) ∷ m) ((k, w) ∷ n) same same_pods =
    let j_k : j ≡ k = cc same in
    let v_w : v.pod ≡ w.pod = cc same_pods in
    ground (arith, j_k, v_w, pod_in-same pods key m n (cc same) (cc same_pods))
