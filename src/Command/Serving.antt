-- ===== src/Command/Serving.antt =====
-- What the command serves when it runs.
use aws_virtual_kubelet.Base.{◌≡◌, refl, sym, ap, ◌∙◌, subst, String, List}
use aws_virtual_kubelet.Kube.{Pod}
use aws_virtual_kubelet.Cloud.{Env, Result, ok, err}
use aws_virtual_kubelet.Process.{Process, done, Go, ◌>>=◌, pure, call}
use aws_virtual_kubelet.EniNode.{EniNode}
use aws_virtual_kubelet.Provider.Startup.{Launch, pre_run, new_ec2_provider, get_k8s_pods}
use aws_virtual_kubelet.Command.{
  Options, NodeCli, Build, with_defaults, name_node, pre_run_callback, or_fatal, main, launch_with,
}
use aws_virtual_kubelet.Command.Loading.{split, Filled, pre_run-Provided, Filled-world}

-- The callback is called after the flags are processed, and before the command runs.
abbrev pub IsRun : {W : Type 0} → NodeCli W → Type 0
IsRun {W} cli =
    (o : Options) (callback : Options → Go W (Result Options)) (s : Process W)
    → cli.run_command o callback s
      ≡ (do
        read ← call (cli.flags o)
        elim read [
          | err e ↦ pure (err e)
          | ok p ↦ do called ← callback p; elim called [ err e ↦ pure (err e) | ok q ↦ cli.serve q ]
        ])
          s

module _ {W : Type 0} ⦃env : Env W⦄ (cli : NodeCli W) (found : String → Launch) where
  -- From `fresh`, the callback has made the node and filled the cache with the pods that Kubernetes
  -- has listed for it, and the command has served under the name of that node, whatever the name
  -- among the options was.
  pub record Served (options : Options) (fresh t : Process W) : Type 0 where
    pub node : EniNode
    pub items : List Pod
    pub created : Process W
    pub listed : Process W
    pub ready : Process W
    pub provided : new_ec2_provider (launch_with found options) fresh ≡ done (ok node) created
    pub read : get_k8s_pods options.kube_config_path node.name created ≡ done (ok items) listed
    pub filled : Filled items ready
    pub serve : cli.serve (record options { node_name = node.name }) ready ≡ done (ok tt) t

  -- The options are those of the environment, with the defaults, then with the flags.
  pub record Serves (build : Build) (s t : Process W) : Type 0 where
    pub environment : Options
    pub options : Options
    pub read : W
    pub made : W
    pub parsed : W
    pub from_env : cli.from_env s.world ≡ (ok environment, read)
    pub new : cli.new (with_defaults build environment) read ≡ (ok tt, made)
    pub flags : cli.flags (with_defaults build environment) made ≡ (ok options, parsed)
    pub served : Served options (record s { world = parsed }) t

  -- The end of the callback.
  name_node-done :
      (o q : Options) (named : Result String) (s t : Process W)
      → name_node cli found o named s ≡ done (ok q) t
      → (name : String) × (named ≡ ok name)
        × (q ≡ record o { node_name = name })
        × (t ≡ record s { world = (cli.configure s.world).1 })
  unfolding name_node
  name_node-done o q (err e) s t h = absurd (cc h)
  name_node-done o q (ok name) s t h = go (cli.configure s.world).0 h
    where
      go :
          (r : Result (Unit {0}))
          → (let m : Go W (Result Options) = elim r [
            | err e ↦ pure (err e)
            | ok _ ↦ pure (ok (record o { node_name = name }))
          ] in
              m (record s { world = (cli.configure s.world).1 }))
            ≡ done (ok q) t
          → (n : String) × (ok name ≡ ok n)
            × (q ≡ record o { node_name = n })
            × (t ≡ record s { world = (cli.configure s.world).1 })
      go (err e) h = absurd (cc h)
      go (ok _) h = (name, refl, cc h, cc h)

  called-Served :
      (p q : Options) (u v t : Process W)
      → pre_run_callback cli found p u ≡ done (ok q) v
      → cli.serve q v ≡ done (ok tt) t
      → Served p u t
  unfolding pre_run_callback launch_with
  called-Served p q u v t called served =
      let h = split (pre_run (launch_with found p)) (name_node cli found p) u (ok q) v called in
      let n = name_node-done p q h.value h.between v h.rest in
      let first : pre_run (launch_with found p) u ≡ done (ok n.0) h.between =
        h.first ∙ ap (λ r. done r h.between) n.1 in
      let r = pre_run-Provided (launch_with found p) n.0 u h.between first in
      let l = r.loaded in
      record {
        node = r.node;
        items = l.items;
        created = r.created;
        listed = l.listed;
        ready = v;
        provided = r.provided;
        read = l.read;
        filled = subst (Filled l.items) (sym n.3) (Filled-world l.items h.between _ l.filled);
        serve =
            subst (λ (o : Options). cli.serve o v ≡ done (ok tt) t)
              (n.2 ∙ ap (λ m. record p { node_name = m }) l.named) served;
      }

  -- What is past an `or_fatal` has a result.
  or_fatal-done :
      {A B : Type 0} (r : Result A) (f : A → Go W B) (s : Process W) (b : B) (t : Process W)
      → (or_fatal cli found r >>= f) s ≡ done b t
      → (a : A) × (r ≡ ok a) × (f a s ≡ done b t)
  unfolding or_fatal
  or_fatal-done (err e) f s b t h = absurd (cc h)
  or_fatal-done (ok a) f s b t h = (a, refl, h)

  or_fatal_last :
      (r : Result (Unit {0})) (s t : Process W)
      → or_fatal cli found r s ≡ done tt t
      → (r ≡ ok tt) × (s ≡ t)
  unfolding or_fatal
  or_fatal_last (err e) s t h = absurd (cc h)
  or_fatal_last (ok tt) s t h = (refl, cc h)

  -- The command that has run: its flags, and the rest.
  ran-Served :
      (o p : Options) (s t : Process W)
      → (let m : Go W (Result (Unit {0})) = do
        called ← pre_run_callback cli found p
        elim called [ err e ↦ pure (err e) | ok q ↦ cli.serve q ]
        in m s)
        ≡ done (ok tt) t
      → Served p s t
  ran-Served o p s t e =
      let h = split (pre_run_callback cli found p) _ s (ok tt) t e in
      go h.value h.between h.first h.rest
    where
      go :
          (called : Result Options) (v : Process W)
          → pre_run_callback cli found p s ≡ done called v
          → (let m : Go W (Result (Unit {0})) = elim called [
            | err e ↦ pure (err e)
            | ok q ↦ cli.serve q
          ] in
              m v)
            ≡ done (ok tt) t
          → Served p s t
      go (err e) v is rest = absurd (cc rest)
      go (ok q) v is rest = called-Served p q s v t is rest

  run-Served :
      IsRun cli
      → (o : Options) (s t : Process W)
      → cli.run_command o (pre_run_callback cli found) s ≡ done (ok tt) t
      → (p : Options) × ((cli.flags o s.world).0 ≡ ok p)
        × Served p (record s { world = (cli.flags o s.world).1 }) t
  run-Served runs o s t e =
      go (cli.flags o s.world).0 refl (sym (runs o (pre_run_callback cli found) s) ∙ e)
    where
      go :
          (read : Result Options)
          → (cli.flags o s.world).0 ≡ read
          → (let m : Go W (Result (Unit {0})) = elim read [
            | err e ↦ pure (err e)
            | ok p ↦ do
              called ← pre_run_callback cli found p
              elim called [ err e ↦ pure (err e) | ok q ↦ cli.serve q ]
          ] in
              m (record s { world = (cli.flags o s.world).1 }))
            ≡ done (ok tt) t
          → (p : Options) × ((cli.flags o s.world).0 ≡ ok p)
            × Served p (record s { world = (cli.flags o s.world).1 }) t
      go (err e) is rest = absurd (cc rest)
      go (ok p) is rest = (p, is, ran-Served o p _ t rest)

  -- A command whose `Run` calls the callback after the processing of the flags and before it serves,
  -- and that ends with no error, has served. `main` has first read the options of the environment,
  -- set its defaults and made the command, the flags are processed on those options, and with the
  -- options that result the callback has made the node and filled the cache with the pods that
  -- Kubernetes has listed for that node and no others: the entry of a key leads to the last of them
  -- with that key, and has a started monitor of its own that watches that pod. What is served has
  -- the name of that node, whatever name the options had.
  pub main-Serves :
      IsRun cli
      → (build : Build) (s t : Process W) → main cli found build s ≡ done tt t
      → Serves build s t
  unfolding main
  main-Serves runs build s t e =
      let x = (cli.from_env s.world).1 in
      let a = or_fatal-done (cli.from_env s.world).0 _ (record s { world = x }) tt t e in
      let o = with_defaults build a.0 in
      let y = (cli.new o x).1 in
      let b = or_fatal-done (cli.new o x).0 _ (record s { world = y }) tt t a.2 in
      let c = split (cli.run_command o (pre_run_callback cli found)) _ _ tt t b.2 in
      let d = or_fatal_last c.value c.between t c.rest in
      let ran : cli.run_command o (pre_run_callback cli found) (record s { world = y })
          ≡ done (ok tt) t =
        c.first ∙ ap (λ r. done r c.between) d.0 ∙ ap (done (ok tt)) d.1 in
      let r = run-Served runs o (record s { world = y }) t ran in
      record {
        environment = a.0;
        options = r.0;
        read = x;
        made = y;
        parsed = (cli.flags o y).1;
        from_env = ap (λ v. (v, x)) a.1;
        new = ap (λ v. (v, y)) b.1;
        flags = ap (λ v. (v, (cli.flags o y).1)) r.1;
        served = r.2;
      }
