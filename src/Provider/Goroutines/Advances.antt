-- ===== src/Provider/Goroutines/Advances.antt =====
-- The steps of CreatePod, UpdatePod and DeletePod that write the cache or a monitor, or that branch.
use aws_virtual_kubelet.Base.{
  ℕ, ◌≡◌, refl, sym, String, str_append, Bool, false, Option, none, some, lookup, arith, ==_iff,
  subst, Bool-cases, inl, inr, length,
}
use aws_virtual_kubelet.Cloud.{Env, Result, ok, err}
use aws_virtual_kubelet.Process.{Process, MetaPod, Go, after, pure}
use aws_virtual_kubelet.Process.Frame.{Returns}
use aws_virtual_kubelet.Health.PodMonitor.{PodMonitor, new_pod_monitor, stopped}
use aws_virtual_kubelet.Cache.{cache_get, cache_set, cache_delete}
use aws_virtual_kubelet.Utils.{pod_is_warm_pool}
use aws_virtual_kubelet.WarmPool.Tags.{update_ec2_tags, set_in_use}
use aws_virtual_kubelet.WarmPool.Frame.{update_ec2_tags-Keeps}
use aws_virtual_kubelet.Provider.Monitoring.{
  create_pod_monitor, stop, stop_pod_monitor, notify, notify_pod_delete, write_monitor,
  set_receiving,
}
use aws_virtual_kubelet.Provider.{pod_key}
use aws_virtual_kubelet.Provider.Goroutines.{
  Goroutine, creating, caching, marking, starting, stopping, terminating, updating, replacing,
  ended, advance,
}
use aws_virtual_kubelet.Provider.Goroutines.Owners.{
  Belongs, MayBelong, IsOwned, Moves, Calm, Calm-refl, Calm-Moves, Calm-IsOwned, Moves-MayBelong,
  Moves-trans, insert-IsOwned, remove-IsOwned, insert-Moves, remove-Moves, write_monitor-Moves,
  write_monitor-IsOwned,
}
use aws_virtual_kubelet.Provider.Goroutines.Points.{
  IsAt, Stepped, Goes, calm, Goes-Calm, Keeps-Returns,
}

module _ {W : Type 0} ⦃env : Env W⦄ (key : String) where
  pub creating-Goes :
      (pod : ℕ) (s : Process W)
      → IsOwned s
      → IsAt key s (creating pod)
      → Goes key s (advance (creating pod) s)
  unfolding advance create_pod_monitor new_pod_monitor
  creating-Goes pod s h a = record {
    owned = record {
      table = h.table;
      monitors = λ k e at. Moves-MayBelong k e.monitor made (h.monitors k e at);
    };
    at = (a, (omega arith, ground (arith, ==_iff s.next_monitor s.next_monitor)));
    moves = made;
  }
    where
      made : Moves key s (after (create_pod_monitor pod s.default_handler s))
      made = record {
        names = λ q. refl;
        more = omega arith;
        watched = λ m below. ground (arith, ==_iff s.next_monitor m);
        entries = λ other differs. refl;
        monitors = λ other m differs b. ground (arith, ==_iff s.next_monitor m, b.0);
      }

  pub caching-Goes :
      (pod m : ℕ) (notifier : Bool) (s : Process W)
      → IsOwned s
      → IsAt key s (caching pod m notifier)
      → Goes key s (advance (caching pod m notifier) s)
  unfolding advance cache_set
  caching-Goes pod m notifier s h a =
      let e : MetaPod = record { pod = pod; monitor = some m; notifier = notifier } in
      record {
        owned =
            insert-IsOwned (pod_key (s.pods pod)) e s (subst (λ k. Belongs s k m) (sym a.0) a.1) h;
        at = (a.0, a.0, a.1);
        moves =
            subst (λ k. Moves k s (cache_set (pod_key (s.pods pod)) e s)) a.0
              (insert-Moves (pod_key (s.pods pod)) e s);
      }

  -- The entry of the key is removed.
  pub removed :
      (k : String) (g : Goroutine) (s : Process W)
      → k ≡ key
      → IsOwned s
      → IsAt key (cache_delete k s) g
      → Stepped key s g (cache_delete k s)
  unfolding cache_delete
  removed k g s same h a = record {
    owned = remove-IsOwned k s h;
    at = a;
    moves = subst (λ j. Moves j s (cache_delete k s)) same (remove-Moves k s h);
  }

  -- A monitor of the key is started or stopped.
  pub written :
      (m : ℕ) (pm : PodMonitor) (receiving : Bool) (g : Goroutine) (s : Process W)
      → pm.pod ≡ (s.pod_monitors m).pod
      → IsOwned s
      → Belongs s key m
      → ((t : Process W) → Moves key s t → IsAt key t g)
      → Stepped key s g (write_monitor m pm (set_receiving (s.pod_monitors m).handler receiving s))
  written m pm receiving g s same h b a =
      let u = set_receiving (s.pod_monitors m).handler receiving s in
      let c : Calm s u = ground arith in
      let v = Moves-trans (Calm-Moves key c) (write_monitor-Moves key m pm u b same) in
      record {
        owned = write_monitor-IsOwned key m pm u b same (Calm-IsOwned c h);
        at = a (write_monitor m pm u) v;
        moves = v;
      }

  pub asked :
      (g : String → Goroutine) (f : Goroutine) (r : Result (Unit {0})) {s t : Process W}
      → IsOwned s
      → Calm s t
      → ((e : String) → IsAt key s (g e))
      → IsAt key s f
      → Goes key s (let m : Go W Goroutine = elim r [ err e ↦ pure (g e) | ok _ ↦ pure f ] in m t)
  asked g f (err e) h c a b = calm key (g e) h c (a e)
  asked g f (ok _) h c a b = calm key f h c b

  pub marking-Goes :
      (pod m : ℕ) (id : String) (s : Process W)
      → IsOwned s
      → IsAt key s (marking pod m id)
      → Goes key s (advance (marking pod m id) s)
  unfolding advance
  marking-Goes pod m id s h a =
      elim (Bool-cases (pod_is_warm_pool (length s.config.warm_pool_config))) [
        | inl warm ↦ rw warm (
            Goes-Calm key (update_ec2_tags id set_in_use (s.pods pod)) _ s
              (Keeps-Returns s _ (λ q. update_ec2_tags-Keeps q id set_in_use (s.pods pod) s))
              (λ r t c. asked (λ e. ended (err e)) (starting pod m) r h c (λ e. tt) a))
        | inr cold ↦ rw cold (calm key (starting pod m) h (Calm-refl s) a)
      ]

  pub stopping-Goes :
      (pod : ℕ) (k : String) (e : MetaPod) (s : Process W)
      → IsOwned s
      → IsAt key s (stopping pod k (some e))
      → Goes key s (advance (stopping pod k (some e)) s)
  unfolding advance stop_pod_monitor stop stopped
  stopping-Goes pod k e s h a = go e.monitor refl a.1
    where
      halted :
          (m : ℕ) (cancel : Option Bool)
          → e.monitor ≡ some m
          → (s.pod_monitors m).cancel ≡ cancel
          → Belongs s key m
          → Goes key s (advance (stopping pod k (some e)) s)
      halted m none has is b = rw (has, is) tt
      halted m (some called) has is b =
          rw (has, is)
            (written m (stopped (s.pod_monitors m)) false (terminating pod k e) s refl h b
              (λ t v. a.0))

      go :
          (o : Option ℕ)
          → e.monitor ≡ o
          → MayBelong s key o
          → Goes key s (advance (stopping pod k (some e)) s)
      go none has b =
          rw has (calm key (ended (err "metaPod or metaPod.monitor is nil")) h (Calm-refl s) tt)
      go (some m) has b = halted m (s.pod_monitors m).cancel has refl b

  pub notify-Calm : (pod : ℕ) (s : Process W) → Returns (Calm s) (notify pod s)
  unfolding notify
  notify-Calm pod s = ground arith

  pub notify_pod_delete-Calm :
      (pod : ℕ) (s : Process W) → Returns (Calm s) (notify_pod_delete pod s)
  unfolding notify_pod_delete notify
  notify_pod_delete-Calm pod s = ground arith

  pub updating-Goes :
      (pod : ℕ) (s : Process W)
      → IsOwned s
      → IsAt key s (updating pod)
      → Goes key s (advance (updating pod) s)
  unfolding advance cache_get
  updating-Goes pod s h a = go (lookup (pod_key (s.pods pod)) s.cache) refl
    where
      go :
          (o : Option MetaPod)
          → lookup (pod_key (s.pods pod)) s.cache ≡ o
          → Goes key s (
              let m : Go W Goroutine = elim o [
                | none ↦ pure (
                    ended (
                      err (
                        str_append "Can't find cache member with key "
                          (str_append (pod_key (s.pods pod)) " to update"))))
                | some e ↦ pure (replacing pod (pod_key (s.pods pod)) e)
              ] in
              m s)
      go none is = calm key (ended (err _)) h (Calm-refl s) tt
      go (some e) is =
          calm key (replacing pod (pod_key (s.pods pod)) e) h (Calm-refl s)
            (a, h.monitors key e (subst (λ k. lookup k s.cache ≡ some e) a is))

  pub replacing-Goes :
      (pod : ℕ) (k : String) (e : MetaPod) (s : Process W)
      → IsOwned s
      → IsAt key s (replacing pod k e)
      → Goes key s (advance (replacing pod k e) s)
  unfolding advance cache_set
  replacing-Goes pod k e s h a =
      let f : MetaPod = record e { pod = pod } in
      record {
        owned = insert-IsOwned k f s (subst (λ j. MayBelong s j e.monitor) (sym a.0) a.1) h;
        at = tt;
        moves = subst (λ j. Moves j s (cache_set k f s)) a.0 (insert-Moves k f s);
      }
