-- ===== src/Provider/Goroutines/Emptied.antt =====
-- What a DeletePod has reached at each point of it, which calls for other keys leave alone.
use aws_virtual_kubelet.Base.{
  ℕ, ◌≡◌, ap, ◌∙◌, String, ◌∷◌, none, some, str_eq, false, lookup, arith, lookup-remove, eq_iff,
}
use aws_virtual_kubelet.Cloud.{Env, Result, ok, err}
use aws_virtual_kubelet.Metrics.{terminate_application_errors}
use aws_virtual_kubelet.Process.{Process, MetaPod, Outcome, Go, pure, ◌>>=◌, update}
use aws_virtual_kubelet.Cache.{cache_delete}
use aws_virtual_kubelet.Compute.{delete_compute}
use aws_virtual_kubelet.Compute.Frame.{delete_compute-Keeps}
use aws_virtual_kubelet.Provider.Monitoring.{
  notify_pod_delete, stop_pod_monitor, stop, mark_deleted,
}
use aws_virtual_kubelet.Provider.{terminate_app}
use aws_virtual_kubelet.Provider.Removal.{terminate_app-Keeps}
use aws_virtual_kubelet.Provider.Goroutines.{
  Goroutine, creating, caching, finding, choosing, using, connecting, launching, undoing, dropping,
  counting, marking, starting, telling, tallying, deleting, stopping, terminating, releasing,
  removing, reporting, updating, replacing, ended, advance,
}
use aws_virtual_kubelet.Provider.Goroutines.Owners.{IsOwned, Moves}
use aws_virtual_kubelet.Provider.Goroutines.Points.{IsAt, Holds, Holds-Calm, Keeps-Returns}
use aws_virtual_kubelet.Provider.Goroutines.Advances.{notify_pod_delete-Calm}

module _ {W : Type 0} (key : String) where
  abbrev pub Emptied : Goroutine → Process W → Type 0
  Emptied (deleting pod) s = Unit
  Emptied (stopping pod k e) s = Unit
  Emptied (terminating pod k e) s = Unit
  Emptied (releasing pod k r) s = Unit
  Emptied (removing pod k) s = Unit
  Emptied (reporting pod) s = lookup key s.cache ≡ none
  Emptied (ended (ok _)) s = lookup key s.cache ≡ none
  Emptied (ended (err _)) s = Unit
  Emptied _ s = ⊥

  -- A call for another key moves.
  pub Moves-Emptied :
      {k : String} (g : Goroutine) {s t : Process W}
      → str_eq k key ≡ false
      → Moves k s t
      → Emptied g s
      → Emptied g t
  Moves-Emptied (deleting pod) d v h = h
  Moves-Emptied (stopping pod k e) d v h = h
  Moves-Emptied (terminating pod k e) d v h = h
  Moves-Emptied (releasing pod k r) d v h = h
  Moves-Emptied (removing pod k) d v h = h
  Moves-Emptied (reporting pod) d v h = v.entries key d ∙ h
  Moves-Emptied (ended (ok _)) d v h = v.entries key d ∙ h
  Moves-Emptied (ended (err _)) d v h = h
  Moves-Emptied (creating pod) d v h = absurd h
  Moves-Emptied (caching pod m n) d v h = absurd h
  Moves-Emptied (finding pod m k) d v h = absurd h
  Moves-Emptied (choosing pod m k b) d v h = absurd h
  Moves-Emptied (using pod m k c) d v h = absurd h
  Moves-Emptied (connecting pod m id) d v h = absurd h
  Moves-Emptied (launching pod m id c) d v h = absurd h
  Moves-Emptied (undoing pod e) d v h = absurd h
  Moves-Emptied (dropping pod e) d v h = absurd h
  Moves-Emptied (counting e) d v h = absurd h
  Moves-Emptied (marking pod m id) d v h = absurd h
  Moves-Emptied (starting pod m) d v h = absurd h
  Moves-Emptied (telling pod) d v h = absurd h
  Moves-Emptied tallying d v h = absurd h
  Moves-Emptied (updating pod) d v h = absurd h
  Moves-Emptied (replacing pod k e) d v h = absurd h

module _ {W : Type 0} ⦃env : Env W⦄ (key : String) where
  abbrev GoesOn : Outcome W Goroutine → Type 0
  GoesOn = Holds (Emptied key)

  stopping-Emptied :
      (pod : ℕ) (k : String) (e : MetaPod) (s : Process W)
      → GoesOn (advance (stopping pod k (some e)) s)
  unfolding advance stop_pod_monitor stop
  stopping-Emptied pod k e s = ground arith

  released :
      (pod : ℕ) (k : String) (u : Process W)
      → GoesOn (
          (delete_compute pod
              >>= elim [ err e ↦ pure (ended (err e)) | ok _ ↦ pure (removing pod k) ])
            u)
  released pod k u =
      Holds-Calm (Emptied key) (delete_compute pod) _ u
        (Keeps-Returns u _ (λ q. delete_compute-Keeps q pod u)) (λ r t c. picked r t)
    where
      picked :
          (r : Result (Unit {0})) (t : Process W)
          → GoesOn (
              let f : Go W Goroutine = elim r [
                | err e ↦ pure (ended (err e))
                | ok _ ↦ pure (removing pod k)
              ] in
              f t)
      picked (err e) t = tt
      picked (ok _) t = tt

  -- A step of a DeletePod for the key.
  pub advance-Emptied :
      (g : Goroutine) (s : Process W)
      → IsOwned s
      → IsAt key s g
      → Emptied key g s
      → GoesOn (advance g s)
  unfolding advance
  advance-Emptied (deleting pod) s o a h = tt
  advance-Emptied (stopping pod k none) s o a h = tt
  advance-Emptied (stopping pod k (some e)) s o a h = stopping-Emptied pod k e s
  advance-Emptied (terminating pod k e) s o a h =
      Holds-Calm (Emptied key) (terminate_app e) _ s
        (Keeps-Returns s _ (λ q. terminate_app-Keeps q e s)) (λ r t c. tt)
  advance-Emptied (releasing pod k (err e)) s o a h =
      released pod k (record s { metrics = terminate_application_errors ∷ s.metrics })
  advance-Emptied (releasing pod k (ok _)) s o a h = released pod k s
  advance-Emptied (removing pod k) s o a h =
      unfold cache_delete in
      (ground (arith, lookup-remove k key s.cache o.table, a, eq_iff key key))
  advance-Emptied (reporting pod) s o a h =
      let u : Process W = record s {
        pods = update s.pods pod (
            mark_deleted "EC2 Provider terminated container upon deletion" (env.now s.world)
              "ProviderPodContainerDeleted" (s.pods pod));
      } in
      Holds-Calm (Emptied key) (notify_pod_delete pod) _ u (notify_pod_delete-Calm key pod u)
        (λ _ t c. ap (lookup key) c.cache ∙ h)
  advance-Emptied (ended (ok _)) s o a h = h
  advance-Emptied (ended (err _)) s o a h = h
  advance-Emptied (creating pod) s o a h = absurd h
  advance-Emptied (caching pod m n) s o a h = absurd h
  advance-Emptied (finding pod m k) s o a h = absurd h
  advance-Emptied (choosing pod m k b) s o a h = absurd h
  advance-Emptied (using pod m k (err e)) s o a h = absurd h
  advance-Emptied (using pod m k (ok c)) s o a h = absurd h
  advance-Emptied (connecting pod m id) s o a h = absurd h
  advance-Emptied (launching pod m id (err e)) s o a h = absurd h
  advance-Emptied (launching pod m id (ok c)) s o a h = absurd h
  advance-Emptied (undoing pod e) s o a h = absurd h
  advance-Emptied (dropping pod e) s o a h = absurd h
  advance-Emptied (counting e) s o a h = absurd h
  advance-Emptied (marking pod m id) s o a h = absurd h
  advance-Emptied (starting pod m) s o a h = absurd h
  advance-Emptied (telling pod) s o a h = absurd h
  advance-Emptied tallying s o a h = absurd h
  advance-Emptied (updating pod) s o a h = absurd h
  advance-Emptied (replacing pod k e) s o a h = absurd h
