-- ===== src/Provider/Rehydration.antt =====
-- PopulateCache and the status loop: the monitors of a cache that is read from Kubernetes.
use aws_virtual_kubelet.Base.{
  ℕ, suc, ◌≤◌, ◌<◌, ◌≡◌, String, true, [], ◌∷◌, some, Table, keys, values, map, Fresh, IsTable,
  Entries, arith, ==_iff, refl, ap, ◌∙◌, Entries-map,
}
use aws_virtual_kubelet.Process.{Process, MetaPod, Outcome, done, crash, after, update, ◌>>=◌}
use aws_virtual_kubelet.Health.PodMonitor.{new_pod_monitor, started}
use aws_virtual_kubelet.Cache.{with_cache}
use aws_virtual_kubelet.Cache.Soundness.{HasOther, AreApart}
use aws_virtual_kubelet.Provider.Monitoring.{new_check_handler, create_pod_monitor, start}
use aws_virtual_kubelet.Provider.Soundness.{IsSoundProcess}
use aws_virtual_kubelet.Provider.Upkeep.{monitor_all, populate_cache}

-- The entry has a started monitor for its pod, on a handler that receives.
pub record IsWatched {W : Type 0} (t : Process W) (e : MetaPod) : Type 0 where
  pub pointer : ℕ
  pub handler : ℕ
  pub monitor : e.monitor ≡ some pointer
  pub is_started : t.pod_monitors pointer ≡ started (new_pod_monitor e.pod handler)
  pub receiving : t.receiving handler ≡ true

-- The same, and `n` monitors were made before.
record IsNew {W : Type 0} (n : ℕ) (t : Process W) (e : MetaPod) : Type 0 where
  pointer : ℕ
  handler : ℕ
  monitor : e.monitor ≡ some pointer
  is_started : t.pod_monitors pointer ≡ started (new_pod_monitor e.pod handler)
  receiving : t.receiving handler ≡ true
  not_before : n ≤ pointer
  before : pointer < t.next_monitor
  handler_before : handler < t.next_handler

-- What the loop of PopulateCache does between `s` and `t`.
record Watches {W : Type 0} (cache : Table MetaPod) (s : Process W) (result : Table MetaPod)
    (t : Process W) : Type 0 where
  monitors : s.next_monitor ≤ t.next_monitor
  handlers : s.next_handler ≤ t.next_handler
  older_monitors : (j : ℕ) → j < s.next_monitor → t.pod_monitors j ≡ s.pod_monitors j
  older_handlers : (h : ℕ) → h < s.next_handler → t.receiving h ≡ s.receiving h
  watched : Entries (IsNew s.next_monitor t) result
  apart : AreApart result
  fresh : (key : String) → Fresh key cache → Fresh key result
  table : IsTable cache → IsTable result
  same_keys : keys result ≡ keys cache
  same_pods : map MetaPod.pod (values result) ≡ map MetaPod.pod (values cache)
  notified : t.notified ≡ s.notified
  store : t.pods ≡ s.pods

-- A call that returns, with such a result and state.
abbrev Gives : {W A : Type 0} → (A → Process W → Type 0) → Outcome W A → Type 0
Gives P (done a t) = P a t
Gives P (crash _ _) = ⊥

module _ {W : Type 0} where
  -- the process after a round of the loop
  abbrev one_more : ℕ → Process W → Process W
  unfolding new_check_handler create_pod_monitor start
  one_more pod s =
      after ((do handler ← new_check_handler; m ← create_pod_monitor pod handler; start m) s)

  stored :
      (pod : ℕ) (s : Process W)
      → update s.pod_monitors s.next_monitor (new_pod_monitor pod s.next_handler) s.next_monitor
        ≡ new_pod_monitor pod s.next_handler
  stored pod s = ground (arith, ==_iff s.next_monitor s.next_monitor)

  -- the store's new monitor and handler, and the older ones
  one_more-new :
      (pod : ℕ) (s : Process W)
      → ((one_more pod s).pod_monitors s.next_monitor
          ≡ started (new_pod_monitor pod s.next_handler))
        × ((one_more pod s).receiving s.next_handler ≡ true)
  unfolding new_check_handler create_pod_monitor start new_pod_monitor
  one_more-new pod s =
      rw (stored pod s)
        (ground (arith, ==_iff s.next_monitor s.next_monitor, ==_iff s.next_handler s.next_handler))

  one_more-older :
      (pod : ℕ) (s : Process W) (j : ℕ)
      → (j < s.next_monitor → (one_more pod s).pod_monitors j ≡ s.pod_monitors j)
        × (j < s.next_handler → (one_more pod s).receiving j ≡ s.receiving j)
  unfolding new_check_handler create_pod_monitor start new_pod_monitor
  one_more-older pod s j =
      rw (stored pod s) (ground (arith, ==_iff s.next_monitor j, ==_iff s.next_handler j))

  IsNew-weaken : (n : ℕ) (t : Process W) (e : MetaPod) → IsNew (suc n) t e → IsNew n t e
  IsNew-weaken n t e h = record {
    pointer = h.pointer;
    handler = h.handler;
    monitor = h.monitor;
    is_started = h.is_started;
    receiving = h.receiving;
    not_before = omega (arith, h.not_before);
    before = h.before;
    handler_before = h.handler_before;
  }

  IsNew-HasOther : (n : ℕ) (t : Process W) (e : MetaPod) → IsNew (suc n) t e → HasOther (some n) e
  IsNew-HasOther n t e h = ground (arith, h.not_before, h.monitor)

  monitor_all-Watches :
      (cache : Table MetaPod) (s : Process W) → Gives (Watches cache s) (monitor_all cache s)
  unfolding monitor_all new_check_handler create_pod_monitor start
  monitor_all-Watches [] s = record {
    monitors = omega arith;
    handlers = omega arith;
    older_monitors = λ j b. refl;
    older_handlers = λ j b. refl;
    watched = tt;
    apart = tt;
    fresh = λ k h. h;
    table = λ h. h;
    same_keys = refl;
    same_pods = refl;
    notified = refl;
    store = refl;
  }
  monitor_all-Watches ((key, e) ∷ rest) s =
      go (monitor_all rest (one_more e.pod s)) (monitor_all-Watches rest (one_more e.pod s))
    where
      go :
          (o : Outcome W (Table MetaPod))
          → Gives (Watches rest (one_more e.pod s)) o
          → Gives (Watches ((key, e) ∷ rest) s) (elim o [
            | done monitored t ↦
                done ((key, record e { monitor = some s.next_monitor }) ∷ monitored) t
            | crash x t ↦ crash x t
          ])
      go (done monitored t) w = record {
        monitors = omega (arith, w.monitors);
        handlers = omega (arith, w.handlers);
        older_monitors = λ j b. w.older_monitors j (omega arith) ∙ (one_more-older e.pod s j).0 b;
        older_handlers = λ j b. w.older_handlers j (omega arith) ∙ (one_more-older e.pod s j).1 b;
        watched = (
          record {
            pointer = s.next_monitor;
            handler = s.next_handler;
            monitor = refl;
            is_started = w.older_monitors s.next_monitor (omega arith) ∙ (one_more-new e.pod s).0;
            receiving = w.older_handlers s.next_handler (omega arith) ∙ (one_more-new e.pod s).1;
            not_before = omega arith;
            before = omega (arith, w.monitors);
            handler_before = omega (arith, w.handlers);
          },
          Entries-map (IsNew-weaken s.next_monitor t) monitored w.watched,
        );
        apart = (Entries-map (IsNew-HasOther s.next_monitor t) monitored w.watched, w.apart);
        fresh = λ k h. (h.0, w.fresh k h.1);
        table = λ h. (w.fresh key h.0, w.table h.1);
        same_keys = ap (λ ks. key ∷ ks) w.same_keys;
        same_pods = ap (λ ps. e.pod ∷ ps) w.same_pods;
        notified = w.notified;
        store = w.store;
      }
      go (crash x t) w = absurd w

  -- What PopulateCache leaves.
  pub record Rehydrated (cache : Table MetaPod) (s t : Process W) : Type 0 where
    pub sound : IsSoundProcess t
    pub watched : Entries (IsWatched t) t.cache
    pub same_keys : keys t.cache ≡ keys cache
    pub same_pods : map MetaPod.pod (values t.cache) ≡ map MetaPod.pod (values cache)
    pub older_monitors : (j : ℕ) → j < s.next_monitor → t.pod_monitors j ≡ s.pod_monitors j
    pub older_handlers : (h : ℕ) → h < s.next_handler → t.receiving h ≡ s.receiving h
    pub notified : t.notified ≡ s.notified
    pub store : t.pods ≡ s.pods

  -- PopulateCache always returns. It keeps the keys and pods of the cache it is given, in which no
  -- key has two entries, and each entry has then a monitor of its own, started on a handler that
  -- receives; monitors and handlers made before are as they were, and Kubernetes is told nothing.
  pub populate_cache-Rehydrated :
      (cache : Table MetaPod) (s : Process W)
      → IsTable cache
      → let t = after (populate_cache cache s) in
        (populate_cache cache s ≡ done tt t) × Rehydrated cache s t
  unfolding populate_cache
  populate_cache-Rehydrated cache s table = go (monitor_all cache s) (monitor_all-Watches cache s)
    where
      go :
          (o : Outcome W (Table MetaPod))
          → Gives (Watches cache s) o
          → let r : Outcome W (Unit {0}) = elim o [
            | done m t ↦ done tt (with_cache m t)
            | crash x t ↦ crash x t
          ] in
            (r ≡ done tt (after r)) × Rehydrated cache s (after r)
      go (done m t) w = (
        refl,
        record {
          sound = record {
            table = w.table table;
            monitored = Entries-map (λ e h. rw h.monitor h.before) m w.watched;
            apart = w.apart;
          };
          watched =
              Entries-map
                (λ e h. record {
                  pointer = h.pointer;
                  handler = h.handler;
                  monitor = h.monitor;
                  is_started = h.is_started;
                  receiving = h.receiving;
                })
                m w.watched;
          same_keys = w.same_keys;
          same_pods = w.same_pods;
          older_monitors = w.older_monitors;
          older_handlers = w.older_handlers;
          notified = w.notified;
          store = w.store;
        },
      )
      go (crash x t) w = absurd w
