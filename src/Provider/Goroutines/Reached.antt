-- ===== src/Provider/Goroutines/Reached.antt =====
-- What a CreatePod has reached at each point of it, which calls for other keys leave alone.
use aws_virtual_kubelet.Base.{
  ℕ, ◌≡◌, ap, ◌∙◌, String, Option, none, some, str_eq, false, lookup, arith, ==_iff, inl, inr, Bool,
  Bool-cases, lookup-insert, length, eq_iff,
}
use aws_virtual_kubelet.Cloud.{Env, Result, ok, err}
use aws_virtual_kubelet.Process.{Process, Outcome, Go, pure}
use aws_virtual_kubelet.Health.PodMonitor.{started, new_pod_monitor}
use aws_virtual_kubelet.Utils.{pod_is_warm_pool}
use aws_virtual_kubelet.Cache.{cache_set}
use aws_virtual_kubelet.Compute.{pod_has_instance, choose_compute, delete_compute}
use aws_virtual_kubelet.Compute.Frame.{
  pod_has_instance-Keeps, choose_compute-Keeps, delete_compute-Keeps,
}
use aws_virtual_kubelet.Agent.{new_vkvma_client, get_application_lifecycle_client}
use aws_virtual_kubelet.Agent.Frame.{get_application_lifecycle_client-Keeps}
use aws_virtual_kubelet.WarmPool.Tags.{update_ec2_tags, set_in_use}
use aws_virtual_kubelet.WarmPool.Frame.{update_ec2_tags-Keeps}
use aws_virtual_kubelet.Provider.Monitoring.{start, notify, create_pod_monitor}
use aws_virtual_kubelet.Provider.{pod_key}
use aws_virtual_kubelet.Provider.Goroutines.{
  Goroutine, creating, caching, finding, choosing, using, connecting, launching, undoing, dropping,
  counting, marking, starting, telling, tallying, deleting, stopping, terminating, releasing,
  removing, reporting, updating, replacing, ended, advance,
}
use aws_virtual_kubelet.Provider.Goroutines.Owners.{Belongs, Moves, Calm, Calm-Moves, Moves-Belongs}
use aws_virtual_kubelet.Provider.Goroutines.Points.{IsAt, Holds, Holds-Calm, Keeps-Returns}
use aws_virtual_kubelet.Provider.Goroutines.Advances.{notify-Calm}

module _ {W : Type 0} (key : String) (pod : ℕ) where
  -- A monitor of the pod, whose `cancel` is as given.
  pub record Watches (cancel : Option Bool) (m : ℕ) (s : Process W) : Type 0 where
    pub belongs : Belongs s key m
    pub watched : (s.pod_monitors m).pod ≡ pod
    pub cancelled : (s.pod_monitors m).cancel ≡ cancel

  -- The entry of the pod is in the cache, with the monitor.
  pub record Cached (cancel : Option Bool) (m : ℕ) (s : Process W) : Type 0 where
    pub watches : Watches cancel m s
    pub notifier : Bool
    pub found :
        lookup key s.cache ≡ some (record { pod = pod; monitor = some m; notifier = notifier })

  abbrev pub Started : Process W → Type 0
  Started s = (m : ℕ) × Cached (some false) m s

  -- What a CreatePod of the pod has reached at each point.
  abbrev pub Reached : Goroutine → Process W → Type 0
  Reached (creating q) s = q ≡ pod
  Reached (caching q m n) s = (q ≡ pod) × Watches none m s
  Reached (finding q m k) s = (q ≡ pod) × Cached none m s
  Reached (choosing q m k b) s = (q ≡ pod) × Cached none m s
  Reached (using q m k c) s = (q ≡ pod) × Cached none m s
  Reached (connecting q m id) s = (q ≡ pod) × Cached none m s
  Reached (launching q m id c) s = (q ≡ pod) × Cached none m s
  Reached (marking q m id) s = (q ≡ pod) × Cached none m s
  Reached (starting q m) s = (q ≡ pod) × Cached none m s
  Reached (telling q) s = Started s
  Reached tallying s = Started s
  Reached (ended (ok _)) s = Started s
  Reached (ended (err _)) s = Unit
  Reached (undoing q e) s = Unit
  Reached (dropping q e) s = Unit
  Reached (counting e) s = Unit
  Reached _ s = ⊥

  Moves-Watches :
      {k : String} {cancel : Option Bool} {m : ℕ} {s t : Process W}
      → str_eq k key ≡ false
      → Moves k s t
      → Watches cancel m s
      → Watches cancel m t
  Moves-Watches {m = m} differs v w =
      let same = v.monitors key m differs w.belongs in
      record {
        belongs = Moves-Belongs v w.belongs;
        watched = ap (λ pm. pm.pod) same ∙ w.watched;
        cancelled = ap (λ pm. pm.cancel) same ∙ w.cancelled;
      }

  Moves-Cached :
      {k : String} {cancel : Option Bool} {m : ℕ} {s t : Process W}
      → str_eq k key ≡ false
      → Moves k s t
      → Cached cancel m s
      → Cached cancel m t
  Moves-Cached differs v c = record {
    watches = Moves-Watches differs v c.watches;
    notifier = c.notifier;
    found = v.entries key differs ∙ c.found;
  }

  -- A call for another key moves.
  pub Moves-Reached :
      {k : String} (g : Goroutine) {s t : Process W}
      → str_eq k key ≡ false
      → Moves k s t
      → Reached g s
      → Reached g t
  Moves-Reached (creating q) d v r = r
  Moves-Reached (caching q m n) d v r = (r.0, Moves-Watches d v r.1)
  Moves-Reached (finding q m k) d v r = (r.0, Moves-Cached d v r.1)
  Moves-Reached (choosing q m k b) d v r = (r.0, Moves-Cached d v r.1)
  Moves-Reached (using q m k c) d v r = (r.0, Moves-Cached d v r.1)
  Moves-Reached (connecting q m id) d v r = (r.0, Moves-Cached d v r.1)
  Moves-Reached (launching q m id c) d v r = (r.0, Moves-Cached d v r.1)
  Moves-Reached (marking q m id) d v r = (r.0, Moves-Cached d v r.1)
  Moves-Reached (starting q m) d v r = (r.0, Moves-Cached d v r.1)
  Moves-Reached (telling q) d v r = (r.0, Moves-Cached d v r.1)
  Moves-Reached tallying d v r = (r.0, Moves-Cached d v r.1)
  Moves-Reached (ended (ok _)) d v r = (r.0, Moves-Cached d v r.1)
  Moves-Reached (ended (err _)) d v r = tt
  Moves-Reached (undoing q e) d v r = tt
  Moves-Reached (dropping q e) d v r = tt
  Moves-Reached (counting e) d v r = tt
  Moves-Reached (deleting q) d v r = absurd r
  Moves-Reached (stopping q k e) d v r = absurd r
  Moves-Reached (terminating q k e) d v r = absurd r
  Moves-Reached (releasing q k e) d v r = absurd r
  Moves-Reached (removing q k) d v r = absurd r
  Moves-Reached (reporting q) d v r = absurd r
  Moves-Reached (updating q) d v r = absurd r
  Moves-Reached (replacing q k e) d v r = absurd r

  Calm-Cached :
      {cancel : Option Bool} {m : ℕ} {s t : Process W}
      → Calm s t
      → Cached cancel m s
      → Cached cancel m t
  Calm-Cached {m = m} c h = record {
    watches = record {
      belongs = Moves-Belongs (Calm-Moves key c) h.watches.belongs;
      watched = ap (λ f. (f m).pod) c.pod_monitors ∙ h.watches.watched;
      cancelled = ap (λ f. (f m).cancel) c.pod_monitors ∙ h.watches.cancelled;
    };
    notifier = h.notifier;
    found = ap (lookup key) c.cache ∙ h.found;
  }

module _ {W : Type 0} ⦃env : Env W⦄ (key : String) (pod : ℕ) where
  abbrev GoesOn : Outcome W Goroutine → Type 0
  GoesOn = Holds (Reached key pod)

  creating-Reached :
      (q : ℕ) (s : Process W) → pod_key (s.pods q) ≡ key → q ≡ pod → GoesOn (advance (creating q) s)
  unfolding advance create_pod_monitor new_pod_monitor
  creating-Reached q s a is = (
    is,
    record {
      belongs = (omega arith, ground (arith, ==_iff s.next_monitor s.next_monitor));
      watched = ground (arith, is, ==_iff s.next_monitor s.next_monitor);
      cancelled = ground (arith, ==_iff s.next_monitor s.next_monitor);
    },
  )

  caching-Reached :
      (q m : ℕ) (n : Bool) (s : Process W)
      → pod_key (s.pods q) ≡ key
      → Reached key pod (caching q m n) s
      → GoesOn (advance (caching q m n) s)
  unfolding advance cache_set
  caching-Reached q m n s a r = (
    r.0,
    record {
      watches = record { belongs = r.1.belongs; watched = r.1.watched; cancelled = r.1.cancelled };
      notifier = n;
      found = ground (
        arith,
        r.0,
        a,
        lookup-insert (pod_key (s.pods q)) key (record { pod = q; monitor = some m; notifier = n })
            s.cache,
        eq_iff key key,
      );
    },
  )

  starting-Reached :
      (q m : ℕ) (s : Process W)
      → Reached key pod (starting q m) s
      → GoesOn (advance (starting q m) s)
  unfolding advance start started
  starting-Reached q m s r = (
    m,
    record {
      watches = record {
        belongs = (r.1.watches.belongs.0, ground (arith, r.1.watches.belongs.1, ==_iff m m));
        watched = ground (arith, r.1.watches.watched, ==_iff m m);
        cancelled = ground (arith, ==_iff m m);
      };
      notifier = r.1.notifier;
      found = r.1.found;
    },
  )

  marked :
      (q m : ℕ) (r : Result (Unit {0})) (t : Process W)
      → Reached key pod (starting q m) t
      → GoesOn (
          let f : Go W Goroutine = elim r [
            | err e ↦ pure (ended (err e))
            | ok _ ↦ pure (starting q m)
          ] in
          f t)
  marked q m (err e) t h = tt
  marked q m (ok _) t h = h

  marking-Reached :
      (q m : ℕ) (id : String) (s : Process W)
      → Reached key pod (marking q m id) s
      → GoesOn (advance (marking q m id) s)
  unfolding advance
  marking-Reached q m id s r =
      elim (Bool-cases (pod_is_warm_pool (length s.config.warm_pool_config))) [
        | inl warm ↦ rw warm (
            Holds-Calm (Reached key pod) (update_ec2_tags id set_in_use (s.pods q)) _ s
              (Keeps-Returns s _ (λ j. update_ec2_tags-Keeps j id set_in_use (s.pods q) s))
              (λ o t c. marked q m o t (r.0, Calm-Cached key pod c r.1)))
        | inr cold ↦ rw cold r
      ]

  launched :
      (q m : ℕ) (id : String) (r : Result (Unit {0})) (t : Process W)
      → Reached key pod (marking q m id) t
      → GoesOn (
          let f : Go W Goroutine = elim r [
            | err e ↦ pure (undoing q e)
            | ok _ ↦ pure (marking q m id)
          ] in
          f t)
  launched q m id (err e) t h = tt
  launched q m id (ok _) t h = h

  -- A step of a CreatePod of the pod.
  pub advance-Reached :
      (g : Goroutine) (s : Process W) → IsAt key s g → Reached key pod g s → GoesOn (advance g s)
  unfolding advance
  advance-Reached (creating q) s a r = creating-Reached q s a r
  advance-Reached (caching q m n) s a r = caching-Reached q m n s a.0 r
  advance-Reached (finding q m k) s a r =
      Holds-Calm (Reached key pod) (pod_has_instance q) _ s
        (Keeps-Returns s _ (λ j. pod_has_instance-Keeps j q s))
        (λ b t c. (r.0, Calm-Cached key pod c r.1))
  advance-Reached (choosing q m k b) s a r =
      Holds-Calm (Reached key pod) (choose_compute q b) _ s
        (Keeps-Returns s _ (λ j. choose_compute-Keeps j q b s))
        (λ x t c. (r.0, Calm-Cached key pod c r.1))
  advance-Reached (using q m k (err e)) s a r = tt
  advance-Reached (using q m k (ok (id, ip))) s a r = (r.0, Calm-Cached key pod (ground arith) r.1)
  advance-Reached (connecting q m id) s a r =
      Holds-Calm (Reached key pod)
        (get_application_lifecycle_client
          (new_vkvma_client (s.pods q).status.pod_ip s.config.vkvm_agent_connection_config.port))
        _ s (Keeps-Returns s _ (λ j. get_application_lifecycle_client-Keeps j _ s))
        (λ x t c. (r.0, Calm-Cached key pod c r.1))
  advance-Reached (launching q m id (err e)) s a r = tt
  advance-Reached (launching q m id (ok c)) s a r =
      launched q m id (env.launch_application c s.world).0 _
        (r.0, Calm-Cached key pod (ground arith) r.1)
  advance-Reached (undoing q e) s a r =
      Holds-Calm (Reached key pod) (delete_compute q) _ s
        (Keeps-Returns s _ (λ j. delete_compute-Keeps j q s)) (λ x t c. tt)
  advance-Reached (dropping q e) s a r = tt
  advance-Reached (counting e) s a r = tt
  advance-Reached (marking q m id) s a r = marking-Reached q m id s r
  advance-Reached (starting q m) s a r = starting-Reached q m s r
  advance-Reached (telling q) s a r =
      Holds-Calm (Reached key pod) (notify q) _ s (notify-Calm key q s)
        (λ x t c. (r.0, Calm-Cached key pod c r.1))
  advance-Reached tallying s a r = (r.0, Calm-Cached key pod (ground arith) r.1)
  advance-Reached (ended (ok x)) s a r = r
  advance-Reached (ended (err e)) s a r = r
  advance-Reached (deleting q) s a r = absurd r
  advance-Reached (stopping q k e) s a r = absurd r
  advance-Reached (terminating q k e) s a r = absurd r
  advance-Reached (releasing q k e) s a r = absurd r
  advance-Reached (removing q k) s a r = absurd r
  advance-Reached (reporting q) s a r = absurd r
  advance-Reached (updating q) s a r = absurd r
  advance-Reached (replacing q k e) s a r = absurd r
