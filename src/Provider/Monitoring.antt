-- ===== src/Provider/Monitoring.antt =====
-- internal/ec2provider/ec2provider.go: the pod monitors and the notifications of the provider, with
-- NewCheckHandler, NewPodMonitor, Start and Stop of internal/health.
use aws_virtual_kubelet.Base.{ℕ, suc, String, Bool, true, false, ◌∷◌, map, Option, none, some}
use aws_virtual_kubelet.Kube.{Pod, ContainerStatus, terminated}
use aws_virtual_kubelet.Cloud.{Env, Result, ok, err}
use aws_virtual_kubelet.Process.{
  Process, MetaPod, Go, ◌>>=◌, ◌>>◌, pure, panic, get, modify, update,
}
use aws_virtual_kubelet.Health.PodMonitor.{PodMonitor, new_pod_monitor, started, stopped}
use aws_virtual_kubelet.Awsutils.Instances.{read_pod, write_pod}

module _ {W : Type 0} where
  -- `health.NewCheckHandler`
  unfoldable pub new_check_handler : Go W ℕ
  new_check_handler = do
    s ← get
    modify λ t. record t {
      receiving = update t.receiving t.next_handler false;
      next_handler = suc t.next_handler;
    }
    pure s.next_handler

  -- `health.NewPodMonitor`, a new object in the store; its error is always nil
  unfoldable pub create_pod_monitor : ℕ → ℕ → Go W ℕ
  create_pod_monitor pod handler = do
    s ← get
    modify λ t. record t {
      pod_monitors = update t.pod_monitors t.next_monitor (new_pod_monitor pod handler);
      next_monitor = suc t.next_monitor;
    }
    pure s.next_monitor

  abbrev pub write_monitor : ℕ → PodMonitor → Process W → Process W
  write_monitor m pm s = record s { pod_monitors = update s.pod_monitors m pm }

  abbrev pub set_receiving : ℕ → Bool → Process W → Process W
  set_receiving h b s = record s { receiving = update s.receiving h b }

  -- `PodMonitor.Start`
  unfoldable pub start : ℕ → Go W (Unit {0})
  start m = do
    s ← get
    let pm = s.pod_monitors m
    modify (set_receiving pm.handler true)
    modify (write_monitor m (started pm))

  -- `PodMonitor.Stop`, when all loops have ended; `cancel` is nil before `Start`
  unfoldable pub stop : ℕ → Go W (Unit {0})
  stop m = do
    s ← get
    let pm = s.pod_monitors m
    elim pm.cancel [
      | none ↦ panic "call of a nil function"
      | some _ ↦ do modify (set_receiving pm.handler false); modify (write_monitor m (stopped pm))
    ]

  -- `stopPodMonitor`
  unfoldable pub stop_pod_monitor : Option MetaPod → Go W (Result (Unit {0}))
  stop_pod_monitor none = pure (err "metaPod or metaPod.monitor is nil")
  stop_pod_monitor (some meta_pod) = elim meta_pod.monitor [
    | none ↦ pure (err "metaPod or metaPod.monitor is nil")
    | some m ↦ do stop m; pure (ok tt)
  ]

  -- `p.podNotifier(pod)`, the callback that `NotifyPods` has set
  unfoldable pub notify : ℕ → Go W (Unit {0})
  notify pod = do
    s ← get
    elim s.notifier_set [
      | false ↦ panic "call of a nil function"
      | true ↦ modify λ t. record t { notified = t.pods pod ∷ t.notified }
    ]

  -- `NotifyPods`
  unfoldable pub notify_pods : Go W (Unit {0})
  notify_pods = modify λ s. record s { notifier_set = true }

-- The end of every container of a pod.
unfoldable pub terminate_container : String → ℕ → String → ContainerStatus → ContainerStatus
terminate_container message finished_at reason c = record c {
  ready = false;
  state = terminated message finished_at reason;
}

-- The pod's status once it is deleted.
unfoldable pub mark_deleted : String → ℕ → String → Pod → Pod
unfolding terminate_container
mark_deleted message finished_at reason pod = record pod {
  status = record (pod.status) {
    phase = "Succeeded";
    reason = "ProviderPodDeleted";
    container_statuses =
        map (terminate_container message finished_at reason) pod.status.container_statuses;
  };
}

module _ {W : Type 0} ⦃env : Env W⦄ where
  -- `notifyPodDelete`
  unfoldable pub notify_pod_delete : ℕ → Go W (Unit {0})
  unfolding mark_deleted
  notify_pod_delete pod = do
    s ← get
    p ← read_pod pod
    write_pod pod (mark_deleted "Pod deletion requested" (env.now s.world) "" p)
    notify pod
