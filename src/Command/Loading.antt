-- ===== src/Command/Loading.antt =====
-- The callback of the command, up to the pods of the node.
use aws_virtual_kubelet.Base.{◌≡◌, ◌≢◌, refl, subst, String, List, none, All, Entries, Entries-map}
use aws_virtual_kubelet.Kube.{Pod}
use aws_virtual_kubelet.Cloud.{Env, Result, ok, err}
use aws_virtual_kubelet.Process.{Process, Outcome, done, crash, Go, ◌>>=◌, pure, panic, after}
use aws_virtual_kubelet.Utils.{get_pod_cache_key}
use aws_virtual_kubelet.Cache.{cache_get}
use aws_virtual_kubelet.Cache.Population.{pod_in, last_listed}
use aws_virtual_kubelet.EniNode.{EniNode}
use aws_virtual_kubelet.Provider.Startup.{
  Launch, pre_run, load_pods, new_ec2_provider, get_k8s_pods, rehydrate,
}
use aws_virtual_kubelet.Provider.Soundness.{IsSoundProcess}
use aws_virtual_kubelet.Provider.Rehydration.{IsWatched}
use aws_virtual_kubelet.Provider.Status.{rehydrate-IsWatched}

-- A method that returns has run its first step, and the rest.
pub record Split {W A B : Type 0} (m : Go W A) (f : A → Go W B) (s : Process W) (b : B)
    (t : Process W) : Type 0 where
  pub value : A
  pub between : Process W
  pub first : m s ≡ done value between
  pub rest : f value between ≡ done b t

pub split :
    {W A B : Type 0} (m : Go W A) (f : A → Go W B) (s : Process W) (b : B) (t : Process W)
    → (m >>= f) s ≡ done b t
    → Split m f s b t
split {W} {A} {B} m f s b t e = go (m s) refl e
  where
    go :
        (o : Outcome W A)
        → m s ≡ o
        → (elim o [ done a u ↦ f a u | crash x u ↦ crash x u ]) ≡ done b t
        → Split m f s b t
    go (done a u) is h = record { value = a; between = u; first = is; rest = h }
    go (crash x u) is h = absurd (cc h)

-- The cache has the pods, each under its key and with a monitor of its own that is started, and
-- nothing else.
abbrev pub Filled : {W : Type 0} → List Pod → Process W → Type 0
Filled items t =
    IsSoundProcess t
    × Entries (IsWatched t) t.cache
    × All (λ p. cache_get (get_pod_cache_key p.namespace p.name) t ≢ none) items
    × ((key : String) → pod_in t.pods (cache_get key t) ≡ last_listed key items none)

-- A call that leaves the program changes nothing of this.
pub Filled-world :
    {W : Type 0} (items : List Pod) (s : Process W) (x : W)
    → Filled items s
    → Filled items (record s { world = x })
unfolding cache_get
Filled-world items s x h = (
  record { table = h.0.table; monitored = h.0.monitored; apart = h.0.apart },
  Entries-map
      (λ e w. record {
        pointer = w.pointer;
        handler = w.handler;
        monitor = w.monitor;
        is_started = w.is_started;
        receiving = w.receiving;
      })
      s.cache h.1,
  h.2,
  h.3,
)

module _ {W : Type 0} ⦃env : Env W⦄ where
  rehydrate-Filled :
      (items : List Pod) (x : Unit {0}) (s t : Process W)
      → rehydrate items s ≡ done x t
      → Filled items t
  rehydrate-Filled items x s t e =
      let h = rehydrate-IsWatched items s in
      let same : after (rehydrate items s) ≡ t = cc (h.0, e) in
      subst (Filled items) same (h.1, h.2, h.3, h.4)

  pub record Loaded (launch : Launch) (node : EniNode) (name : String) (s t : Process W)
      : Type 0 where
    pub items : List Pod
    pub listed : Process W
    pub read : get_k8s_pods launch.kube_config_path node.name s ≡ done (ok items) listed
    pub filled : Filled items t
    pub named : name ≡ node.name

  load_pods-Loaded :
      (launch : Launch) (node : EniNode) (name : String) (s t : Process W)
      → load_pods launch node s ≡ done (ok name) t
      → Loaded launch node name s t
  unfolding load_pods
  load_pods-Loaded launch node name s t e =
      let h = split (get_k8s_pods launch.kube_config_path node.name) _ s (ok name) t e in
      go h.value h.between h.first h.rest
    where
      go :
          (pods : Result (List Pod)) (u : Process W)
          → get_k8s_pods launch.kube_config_path node.name s ≡ done pods u
          → (let m : Go W (Result String) = elim pods [
            | err x ↦ pure (err x)
            | ok items ↦ (rehydrate items >>= λ _. pure (ok node.name))
          ] in
              m u)
            ≡ done (ok name) t
          → Loaded launch node name s t
      go (err x) u is rest = absurd (cc rest)
      go (ok items) u is rest =
          let r = split (rehydrate items) (λ _. pure (ok node.name)) u (ok name) t rest in
          record {
            items = items;
            listed = u;
            read = is;
            filled =
                subst (Filled items) (cc r.rest)
                  (rehydrate-Filled items r.value u r.between r.first);
            named = cc r.rest;
          }

  pub record Provided (launch : Launch) (name : String) (s t : Process W) : Type 0 where
    pub node : EniNode
    pub created : Process W
    pub provided : new_ec2_provider launch s ≡ done (ok node) created
    pub loaded : Loaded launch node name created t

  pub pre_run-Provided :
      (launch : Launch) (name : String) (s t : Process W)
      → pre_run launch s ≡ done (ok name) t
      → Provided launch name s t
  unfolding pre_run
  pre_run-Provided launch name s t e =
      let h = split (new_ec2_provider launch) _ s (ok name) t e in
      go h.value h.between h.first h.rest
    where
      go :
          (made : Result EniNode) (u : Process W)
          → new_ec2_provider launch s ≡ done made u
          → (let m : Go W (Result String) = elim made [
            | err x ↦ panic x
            | ok node ↦ load_pods launch node
          ] in
              m u)
            ≡ done (ok name) t
          → Provided launch name s t
      go (err x) u is rest = absurd (cc rest)
      go (ok node) u is rest = record {
        node = node;
        created = u;
        provided = is;
        loaded = load_pods-Loaded launch node name u t rest;
      }
