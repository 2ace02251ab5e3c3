-- ===== src/Provider/Goroutines/Owners.antt =====
-- The keys that the monitors of the provider belong to, and what a call for one key leaves alone.
use aws_virtual_kubelet.Base.{
  ℕ, ◌≤◌, ◌<◌, ◌≡◌, refl, sym, ap, ◌∙◌, String, true, false, Option, none, some, str_eq, lookup,
  insert, remove, IsTable, lookup-insert, lookup-remove, insert-IsTable, remove-IsTable, Bool-cases,
  ◌⊎◌, inl, inr, eq_iff, ==_iff, subst, Table, arith,
}
use aws_virtual_kubelet.Process.{Process, MetaPod}
use aws_virtual_kubelet.Process.Frame.{Keeps}
use aws_virtual_kubelet.Health.PodMonitor.{PodMonitor}
use aws_virtual_kubelet.Cache.{with_cache}
use aws_virtual_kubelet.Provider.Monitoring.{write_monitor}
use aws_virtual_kubelet.Provider.{pod_key}

module _ {W : Type 0} where
  -- The key of the pod that a monitor watches.
  abbrev pub owner : Process W → ℕ → String
  owner s m = pod_key (s.pods (s.pod_monitors m).pod)

  -- The monitor has been made, for a pod with the key.
  abbrev pub Belongs : Process W → String → ℕ → Type 0
  Belongs s key m = (m < s.next_monitor) × (owner s m ≡ key)

  abbrev pub MayBelong : Process W → String → Option ℕ → Type 0
  MayBelong s key none = Unit
  MayBelong s key (some m) = Belongs s key m

  -- Each key has at most one entry, and the monitor of the entry watches a pod with the key.
  pub record IsOwned (s : Process W) : Type 0 where
    pub table : IsTable s.cache
    pub monitors :
        (key : String) (e : MetaPod) → lookup key s.cache ≡ some e → MayBelong s key e.monitor

  -- What a step for one key leaves alone: the names of the pods, the entries of other keys and their
  -- monitors.
  pub record Moves (key : String) (s t : Process W) : Type 0 where
    pub names : (q : ℕ) → pod_key (t.pods q) ≡ pod_key (s.pods q)
    pub more : s.next_monitor ≤ t.next_monitor
    pub watched : (m : ℕ) → m < s.next_monitor → (t.pod_monitors m).pod ≡ (s.pod_monitors m).pod
    pub entries :
        (other : String) → str_eq key other ≡ false → lookup other t.cache ≡ lookup other s.cache
    pub monitors :
        (other : String) (m : ℕ)
        → str_eq key other ≡ false
        → Belongs s other m
        → t.pod_monitors m ≡ s.pod_monitors m

  -- A step that changes neither the cache nor a monitor.
  pub record Calm (s t : Process W) : Type 0 where
    pub names : (q : ℕ) → pod_key (t.pods q) ≡ pod_key (s.pods q)
    pub next : t.next_monitor ≡ s.next_monitor
    pub pod_monitors : t.pod_monitors ≡ s.pod_monitors
    pub cache : t.cache ≡ s.cache

  pub Keeps-Calm : {s t : Process W} → ((q : ℕ) → Keeps q s t) → Calm s t
  Keeps-Calm k = record {
    names = λ q. let h = k q in rw (h.name, h.namespace) refl;
    next = (k 0).next_monitor;
    pod_monitors = (k 0).pod_monitors;
    cache = (k 0).cache;
  }

  pub Calm-refl : (s : Process W) → Calm s s
  Calm-refl s = record { names = λ q. refl; next = refl; pod_monitors = refl; cache = refl }

  pub Calm-trans : {s t u : Process W} → Calm s t → Calm t u → Calm s u
  Calm-trans c d = record {
    names = λ q. d.names q ∙ c.names q;
    next = d.next ∙ c.next;
    pod_monitors = d.pod_monitors ∙ c.pod_monitors;
    cache = d.cache ∙ c.cache;
  }

  pub Calm-Moves : (key : String) {s t : Process W} → Calm s t → Moves key s t
  Calm-Moves key c = record {
    names = c.names;
    more = omega (arith, c.next);
    watched = λ m below. ap (λ f. (f m).pod) c.pod_monitors;
    entries = λ other differs. ap (lookup other) c.cache;
    monitors = λ other m differs b. ap (λ f. f m) c.pod_monitors;
  }

  -- A monitor stays with its key.
  pub Moves-Belongs :
      {key k : String} {m : ℕ} {s t : Process W} → Moves k s t → Belongs s key m → Belongs t key m
  Moves-Belongs {m = m} {s = s} {t = t} v b = (
    omega (arith, v.more, b.0),
    v.names (t.pod_monitors m).pod ∙ ap (λ q. pod_key (s.pods q)) (v.watched m b.0) ∙ b.1,
  )

  pub Moves-MayBelong :
      (key : String) (o : Option ℕ) {k : String} {s t : Process W}
      → Moves k s t
      → MayBelong s key o
      → MayBelong t key o
  Moves-MayBelong key none v b = tt
  Moves-MayBelong key (some m) v b = Moves-Belongs v b

  pub Moves-trans :
      {key : String} {s t u : Process W} → Moves key s t → Moves key t u → Moves key s u
  Moves-trans {s = s} v w = record {
    names = λ q. w.names q ∙ v.names q;
    more = omega (arith, v.more, w.more);
    watched = λ m below. w.watched m (omega (arith, v.more)) ∙ v.watched m below;
    entries = λ other differs. w.entries other differs ∙ v.entries other differs;
    monitors = λ other m differs b.
        w.monitors other m differs (Moves-Belongs v b) ∙ v.monitors other m differs b;
  }

  pub Calm-IsOwned : {s t : Process W} → Calm s t → IsOwned s → IsOwned t
  Calm-IsOwned {s = s} c h = record {
    table = rw c.cache h.table;
    monitors = λ key e at.
        Moves-MayBelong key e.monitor (Calm-Moves "" c)
          (h.monitors key e (ap (lookup key) (sym c.cache) ∙ at));
  }

  with_cache-MayBelong :
      (key : String) (o : Option ℕ) (m : Table MetaPod) (s : Process W)
      → MayBelong s key o
      → MayBelong (with_cache m s) key o
  with_cache-MayBelong key none m s b = b
  with_cache-MayBelong key (some i) m s b = b

  -- The entry of a key is set, to a monitor that belongs to it, or is removed.
  pub insert-IsOwned :
      (key : String) (e : MetaPod) (s : Process W)
      → MayBelong s key e.monitor
      → IsOwned s
      → IsOwned (with_cache (insert key e s.cache) s)
  insert-IsOwned key e s b h = record {
    table = insert-IsTable key e s.cache h.table;
    monitors = λ other f at.
        with_cache-MayBelong other f.monitor (insert key e s.cache) s
          (belongs other f at (Bool-cases (str_eq key other)));
  }
    where
      belongs :
          (other : String) (f : MetaPod)
          → lookup other (insert key e s.cache) ≡ some f
          → (str_eq key other ≡ true) ⊎ (str_eq key other ≡ false)
          → MayBelong s other f.monitor
      belongs other f at (inl same) =
          let it : e ≡ f = ground (arith, lookup-insert key other e s.cache) in
          subst (λ k. MayBelong s k f.monitor) ((eq_iff key other).0 same)
            (subst (λ (x : MetaPod). MayBelong s key x.monitor) it b)
      belongs other f at (inr differs) =
          h.monitors other f (ground (arith, lookup-insert key other e s.cache))

  pub remove-IsOwned :
      (key : String) (s : Process W) → IsOwned s → IsOwned (with_cache (remove key s.cache) s)
  remove-IsOwned key s h = record {
    table = remove-IsTable key s.cache h.table;
    monitors = λ other f at.
        with_cache-MayBelong other f.monitor (remove key s.cache) s
          (h.monitors other f (ground (arith, lookup-remove key other s.cache h.table)));
  }

  -- A change of the entry of the key moves nothing else.
  pub insert-Moves :
      (key : String) (e : MetaPod) (s : Process W)
      → Moves key s (with_cache (insert key e s.cache) s)
  insert-Moves key e s = record {
    names = λ q. refl;
    more = omega arith;
    watched = λ m below. refl;
    entries = λ other differs. ground (arith, lookup-insert key other e s.cache);
    monitors = λ other m differs b. refl;
  }

  pub remove-Moves :
      (key : String) (s : Process W) → IsOwned s → Moves key s (with_cache (remove key s.cache) s)
  remove-Moves key s h = record {
    names = λ q. refl;
    more = omega arith;
    watched = λ m below. refl;
    entries = λ other differs. ground (arith, lookup-remove key other s.cache h.table);
    monitors = λ other m differs b. refl;
  }

  -- A monitor of the key is written, but for the pod that it watches.
  pub write_monitor-Moves :
      (key : String) (m : ℕ) (pm : PodMonitor) (s : Process W)
      → Belongs s key m
      → pm.pod ≡ (s.pod_monitors m).pod
      → Moves key s (write_monitor m pm s)
  write_monitor-Moves key m pm s b same = record {
    names = λ q. refl;
    more = omega arith;
    watched = λ j below. ground (arith, ==_iff m j);
    entries = λ other differs. refl;
    monitors = λ other j differs c. ground (arith, ==_iff m j, eq_iff key other);
  }

  -- So a cache that is owned stays so.
  pub write_monitor-IsOwned :
      (key : String) (m : ℕ) (pm : PodMonitor) (s : Process W)
      → Belongs s key m
      → pm.pod ≡ (s.pod_monitors m).pod
      → IsOwned s
      → IsOwned (write_monitor m pm s)
  write_monitor-IsOwned key m pm s b same h = record {
    table = h.table;
    monitors = λ other e at.
        Moves-MayBelong other e.monitor (write_monitor-Moves key m pm s b same)
          (h.monitors other e at);
  }
