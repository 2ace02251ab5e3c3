-- ===== src/Provider/Goroutines/Remainder.antt =====
-- What is left of a call of CreatePod, UpdatePod or DeletePod after some of its steps.
use aws_virtual_kubelet.Base.{◌≡◌, refl, none, some, arith}
use aws_virtual_kubelet.Cloud.{Env, Result, ok, err}
use aws_virtual_kubelet.Process.{Process, Go, ◌>>=◌, ◌>>◌, pure, panic, get, modify, inc, pure}
use aws_virtual_kubelet.Metrics.{pods_launched, launch_application_errors}
use aws_virtual_kubelet.Awsutils.Instances.{read_pod, write_pod}
use aws_virtual_kubelet.Cache.{cache_set, cache_delete, cache_update_pod}
use aws_virtual_kubelet.Compute.{get_compute, choose_compute}
use aws_virtual_kubelet.Provider.Monitoring.{
  stop_pod_monitor, notify, mark_deleted, notify_pod_delete,
}
use aws_virtual_kubelet.Provider.{
  pod_key, create_pod, use_compute, launch_on, launch_over, launch_application, undo_launch,
  after_launch, mark_in_use, finish_create, update_pod, delete_pod, delete_stopped, after_terminate,
  finish_delete,
}
use aws_virtual_kubelet.Provider.Goroutines.{
  Goroutine, creating, caching, finding, choosing, using, connecting, launching, undoing, dropping,
  counting, marking, starting, telling, tallying, deleting, stopping, terminating, releasing,
  removing, reporting, updating, replacing, ended, advance,
}

module _ {W : Type 0} ⦃env : Env W⦄ where
  -- What a call has left to do, in the words of the methods themselves.
  unfoldable pub remainder : Goroutine → Go W (Result (Unit {0}))
  remainder (creating pod) = create_pod pod
  remainder (caching pod monitor notifier) = do
    p ← read_pod pod
    modify
        (cache_set (pod_key p) (record { pod = pod; monitor = some monitor; notifier = notifier }))
    compute ← get_compute pod
    use_compute pod monitor (pod_key p) compute
  remainder (finding pod monitor key) = do
    compute ← get_compute pod
    use_compute pod monitor key compute
  remainder (choosing pod monitor key has_instance) = do
    compute ← choose_compute pod has_instance
    use_compute pod monitor key compute
  remainder (using pod monitor key compute) = use_compute pod monitor key compute
  remainder (connecting pod monitor instance_id) = do
    launched ← launch_application pod
    after_launch pod monitor instance_id launched
  remainder (launching pod monitor instance_id client) = do
    launched ← launch_over pod client
    after_launch pod monitor instance_id launched
  remainder (undoing pod e) = do undo_launch pod; inc launch_application_errors; pure (err e)
  remainder (dropping pod e) = do
    p ← read_pod pod
    modify (cache_delete (pod_key p))
    inc launch_application_errors
    pure (err e)
  remainder (counting e) = do inc launch_application_errors; pure (err e)
  remainder (marking pod monitor instance_id) = mark_in_use pod monitor instance_id
  remainder (starting pod monitor) = finish_create pod monitor
  remainder (telling pod) = do notify pod; inc pods_launched; pure (ok tt)
  remainder tallying = do inc pods_launched; pure (ok tt)
  remainder (deleting pod) = delete_pod pod
  remainder (stopping pod key meta_pod) = do
    stopped ← stop_pod_monitor meta_pod
    elim meta_pod [
      | none ↦ panic "nil pointer dereference"
      | some m ↦ elim stopped [ err e ↦ pure (err e) | ok _ ↦ delete_stopped pod key m ]
    ]
  remainder (terminating pod key meta_pod) = delete_stopped pod key meta_pod
  remainder (releasing pod key terminated) = after_terminate pod key terminated
  remainder (removing pod key) = finish_delete pod key
  remainder (reporting pod) = do
    s ← get
    p ← read_pod pod
    write_pod pod (
        mark_deleted "EC2 Provider terminated container upon deletion" (env.now s.world)
          "ProviderPodContainerDeleted" p)
    notify_pod_delete pod
    pure (ok tt)
  remainder (updating pod) = update_pod pod
  remainder (replacing pod key meta_pod) = do
    modify (cache_set key (record meta_pod { pod = pod }))
    pure (ok tt)
  remainder (ended r) = pure r

  pub advance-remainder :
      (g : Goroutine) (s : Process W) → (advance g >>= remainder) s ≡ remainder g s
  unfolding advance remainder
  advance-remainder (creating pod) s = unfold create_pod in refl
  advance-remainder (caching pod monitor notifier) s = refl
  advance-remainder (finding pod monitor key) s = unfold get_compute in (ground arith)
  advance-remainder (choosing pod monitor key has_instance) s = ground arith
  advance-remainder (using pod monitor key (err e)) s = unfold use_compute in refl
  advance-remainder (using pod monitor key (ok (id, ip))) s = unfold use_compute launch_on in refl
  advance-remainder (connecting pod monitor id) s = unfold launch_application in (ground arith)
  advance-remainder (launching pod monitor id (err e)) s =
      unfold launch_over after_launch in (ground arith)
  advance-remainder (launching pod monitor id (ok c)) s =
      unfold launch_over after_launch in (ground arith)
  advance-remainder (undoing pod e) s = unfold undo_launch in (ground arith)
  advance-remainder (dropping pod e) s = refl
  advance-remainder (counting e) s = refl
  advance-remainder (marking pod monitor id) s = unfold mark_in_use in (ground arith)
  advance-remainder (starting pod monitor) s = unfold finish_create in (ground arith)
  advance-remainder (telling pod) s = ground arith
  advance-remainder tallying s = refl
  advance-remainder (deleting pod) s = unfold delete_pod in refl
  advance-remainder (stopping pod key none) s = unfold stop_pod_monitor in refl
  advance-remainder (stopping pod key (some m)) s = ground arith
  advance-remainder (terminating pod key m) s = unfold delete_stopped in (ground arith)
  advance-remainder (releasing pod key r) s = unfold after_terminate in (ground arith)
  advance-remainder (removing pod key) s = unfold finish_delete in refl
  advance-remainder (reporting pod) s = ground arith
  advance-remainder (updating pod) s = unfold update_pod cache_update_pod in (ground arith)
  advance-remainder (replacing pod key m) s = refl
  advance-remainder (ended r) s = refl
