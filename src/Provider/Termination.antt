-- ===== src/Provider/Termination.antt =====
-- DeletePod and the pod's instance.
use aws_virtual_kubelet.Base.{
  ℕ, if◌then◌else◌, none, Option, arith, ◌≡◌, subst, refl, String, str_eq, Bool, true, false, List,
  [], ◌∷◌, some,
}
use aws_virtual_kubelet.Kube.{annotation}
use aws_virtual_kubelet.Cloud.{Env, Result, ok, err}
use aws_virtual_kubelet.Process.{
  Process, MetaPod, Go, Outcome, done, crash, after, ◌>>=◌, ◌>>◌, pure, panic, index_zero, inc,
}
use aws_virtual_kubelet.Utils.Text.{contains}
use aws_virtual_kubelet.Metrics.{
  ec2_terminated, ec2_termination_errors, terminate_application_errors,
}
use aws_virtual_kubelet.Awsutils.UserData.{new_client}
use aws_virtual_kubelet.Awsutils.Instances.{terminate_ec2}
use aws_virtual_kubelet.Agent.{get_application_lifecycle_client}
use aws_virtual_kubelet.Compute.{instance_id_key, delete_compute}
use aws_virtual_kubelet.Cache.{cache_get}
use aws_virtual_kubelet.Provider.Monitoring.{stop_pod_monitor, stop}
use aws_virtual_kubelet.Provider.{
  pod_key, terminate_app, after_terminate, delete_stopped, finish_delete, delete_pod,
}

-- What says that an instance terminates, or that there is none any more.
abbrev pub is_gone : Result (List String) → Bool
is_gone (ok _) = true
is_gone (err e) = contains e "InvalidInstanceID.NotFound"

-- EC2 was asked to terminate the instance, at some time, and said so.
abbrev pub IsTerminated : {W : Type 0} → Env W → String → Type 0
IsTerminated {W} env id = (w : W) × (is_gone (env.terminate_instances (id ∷ []) w).0 ≡ true)

module _ {W : Type 0} ⦃env : Env W⦄ (id : String) where
  -- What a call that returns no error has been told.
  abbrev Told : {A : Type 0} → Outcome W (Result A) → Type 0
  Told (done (ok _) t) = IsTerminated env id
  Told (done (err _) t) = Unit
  Told (crash _ _) = Unit

  answered-Told :
      (r : Result (List String)) (w : W) (t : Process W)
      → (env.terminate_instances (id ∷ []) w).0 ≡ r
      → Told (
          (elim r as (λ _. Go W (Result String)) [
            | err e ↦
                if contains e "InvalidInstanceID.NotFound"
                then pure (ok "")
                else do inc ec2_termination_errors; pure (err e)
            | ok terminating ↦ do i ← index_zero terminating; inc ec2_terminated; pure (ok i)
          ])
            t)
  answered-Told (ok []) w t e = tt
  answered-Told (ok (i ∷ is)) w t e = (w, rw e refl)
  answered-Told (err x) w t e = go (contains x "InvalidInstanceID.NotFound") refl
    where
      go :
          (b : Bool)
          → contains x "InvalidInstanceID.NotFound" ≡ b
          → Told (
              (if b
                  then pure {A = Result String} (ok "")
                  else do inc ec2_termination_errors; pure (err x))
                t)
      go true h = (w, rw (e, h) refl)
      go false h = tt

  -- A step, whatever comes of it, before a method that is told.
  >>=-Told :
      {A B : Type 0} (m : Go W A) (f : A → Go W (Result B)) (s : Process W)
      → (after (m s)).pods ≡ s.pods
      → ((a : A) (t : Process W) → t.pods ≡ s.pods → Told (f a t))
      → Told ((m >>= f) s)
  >>=-Told {A} {B} m f s h k = go (m s) h
    where
      go :
          (o : Outcome W A)
          → (after o).pods ≡ s.pods
          → Told {A = B} (elim o [ done a t ↦ f a t | crash e t ↦ crash e t ])
      go (done a t) h = k a t h
      go (crash e t) h = tt

  new_client-pods : (s : Process W) → (after (new_client s)).pods ≡ s.pods
  unfolding new_client
  new_client-pods s = ground arith

  terminate_ec2-Told : (s : Process W) → str_eq id "" ≡ false → Told (terminate_ec2 id s)
  unfolding terminate_ec2
  terminate_ec2-Told s named = rw named (
      >>=-Told new_client _ s (new_client-pods s)
        (λ _ t _. answered-Told (env.terminate_instances (id ∷ []) t.world).0 t.world _ refl))

  -- the end of DeletePod, once the monitor is stopped
  abbrev go_on : ℕ → String → Option MetaPod → Result (Unit {0}) → Go W (Result (Unit {0}))
  go_on pod key entry stopped = elim entry [
    | none ↦ panic "nil pointer dereference"
    | some m ↦ elim stopped [ err e ↦ pure (err e) | ok _ ↦ delete_stopped pod key m ]
  ]

  module _ (pod : ℕ) (named : str_eq id "" ≡ false) where
    abbrev IsOn : Process W → Type 0
    IsOn s = annotation instance_id_key (s.pods pod) ≡ id

    delete_compute-Told : (s : Process W) → IsOn s → Told (delete_compute pod s)
    unfolding delete_compute
    delete_compute-Told s on = rw on (go (terminate_ec2 id s) (terminate_ec2-Told s named))
      where
        go :
            (o : Outcome W (Result String))
            → Told o
            → Told {A = Unit {0}} (elim o [
              | done (ok i) t ↦ done (ok tt) t
              | done (err e) t ↦ done (err e) t
              | crash e t ↦ crash e t
            ])
        go (done (ok i) t) h = h
        go (done (err e) t) h = tt
        go (crash e t) h = tt

    deleted-Told :
        (key : String) (o : Outcome W (Result (Unit {0})))
        → Told o
        → Told {A = Unit {0}} (elim o [
          | done r t ↦
              (elim r as (λ _. Go W (Result (Unit {0}))) [
                | err e ↦ pure (err e)
                | ok _ ↦ finish_delete pod key
              ])
                t
          | crash e t ↦ crash e t
        ])
    deleted-Told key (done (ok _) t) h = go (finish_delete pod key t)
      where
        go : (o : Outcome W (Result (Unit {0}))) → Told o
        go (done (ok _) u) = h
        go (done (err e) u) = tt
        go (crash e u) = tt
    deleted-Told key (done (err e) t) h = tt
    deleted-Told key (crash e t) h = tt

    after_terminate-Told :
        (key : String) (r : Result (Unit {0})) (s : Process W)
        → IsOn s
        → Told (after_terminate pod key r s)
    unfolding after_terminate
    after_terminate-Told key (ok _) s on =
        deleted-Told key (delete_compute pod s) (delete_compute-Told s on)
    after_terminate-Told key (err e) s on =
        let u : Process W = record s { metrics = terminate_application_errors ∷ s.metrics } in
        deleted-Told key (delete_compute pod u) (delete_compute-Told u on)

    terminate_app-pods : (m : MetaPod) (s : Process W) → (after (terminate_app m s)).pods ≡ s.pods
    unfolding terminate_app get_application_lifecycle_client
    terminate_app-pods m s = ground arith

    delete_stopped-Told :
        (key : String) (m : MetaPod) (s : Process W) → IsOn s → Told (delete_stopped pod key m s)
    unfolding delete_stopped
    delete_stopped-Told key m s on =
        >>=-Told (terminate_app m) (after_terminate pod key) s (terminate_app-pods m s)
          (λ r t same. after_terminate-Told key r t (rw same on))

    stop_pod_monitor-pods :
        (m : Option MetaPod) (s : Process W) → (after (stop_pod_monitor m s)).pods ≡ s.pods
    unfolding stop_pod_monitor stop
    stop_pod_monitor-pods none s = refl
    stop_pod_monitor-pods (some m) s = ground arith

    go_on-Told :
        (key : String) (entry : Option MetaPod) (stopped : Result (Unit {0})) (s : Process W)
        → IsOn s
        → Told (go_on pod key entry stopped s)
    go_on-Told key none stopped s on = tt
    go_on-Told key (some m) (err e) s on = tt
    go_on-Told key (some m) (ok _) s on = delete_stopped-Told key m s on

    delete_pod-Told : (s : Process W) → IsOn s → Told (delete_pod pod s)
    unfolding delete_pod
    delete_pod-Told s on =
        let key = pod_key (s.pods pod) in
        >>=-Told (stop_pod_monitor (cache_get key s)) (go_on pod key (cache_get key s)) s
          (stop_pod_monitor-pods (cache_get key s) s)
          (λ stopped t same. go_on-Told key (cache_get key s) stopped t (rw same on))

    -- A DeletePod that returns no error, of a pod whose annotation names an instance, has asked EC2 to
    -- terminate that instance, and EC2 has said that it does or that there is no such instance: no
    -- instance of a deleted pod is left running for want of a call.
    pub delete_pod-IsTerminated :
        (s t : Process W)
        → annotation instance_id_key (s.pods pod) ≡ id
        → delete_pod pod s ≡ done (ok tt) t
        → IsTerminated env id
    delete_pod-IsTerminated s t on e = subst Told e (delete_pod-Told s on)
