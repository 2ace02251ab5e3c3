-- ===== src/Provider/Goroutines.antt =====
-- internal/ec2provider/ec2provider.go: calls of CreatePod, UpdatePod and DeletePod by several
-- goroutines, which interleave between the calls of other objects in their bodies. Each access of
-- the cache is one step, and so is each call of the compute manager or of the agent.
pub mod Remainder
pub mod Alone
pub mod Sharing
pub mod Owners
pub mod Points
pub mod Advances
pub mod Steps
pub mod Ownership
pub mod Reached
pub mod Emptied
pub mod Among
pub mod Isolation
pub mod Revival
use aws_virtual_kubelet.Base.{
  ℕ, Bool, String, str_append, List, [], ◌∷◌, Option, none, some, length, if◌then◌else◌,
}
use aws_virtual_kubelet.Kube.{Pod}
use aws_virtual_kubelet.Metrics.{
  pods_launched, grpc_app_client_errors, launch_application_errors, terminate_application_errors,
}
use aws_virtual_kubelet.Cloud.{Env, Result, ok, err}
use aws_virtual_kubelet.Process.{
  Process, MetaPod, Outcome, done, crash, Go, ◌>>=◌, ◌>>◌, pure, panic, get, modify, call, inc,
  update,
}
use aws_virtual_kubelet.Utils.{pod_is_warm_pool}
use aws_virtual_kubelet.Awsutils.Instances.{read_pod, write_pod}
use aws_virtual_kubelet.Agent.{new_vkvma_client, get_application_lifecycle_client}
use aws_virtual_kubelet.WarmPool.Tags.{set_in_use, update_ec2_tags}
use aws_virtual_kubelet.Cache.{cache_get, cache_set, cache_delete}
use aws_virtual_kubelet.Compute.{pod_has_instance, choose_compute, delete_compute}
use aws_virtual_kubelet.Provider.Monitoring.{
  create_pod_monitor, start, stop_pod_monitor, notify, mark_deleted, notify_pod_delete,
}
use aws_virtual_kubelet.Provider.{
  pod_key, with_ips, create_pod, use_compute, launch_over, launch_application, undo_launch,
  after_launch, mark_in_use, finish_create, update_pod, delete_pod, delete_stopped, after_terminate,
  finish_delete, terminate_app,
}

-- A call with its local variables, at the point that it has reached.
pub data Goroutine : Type 0 where
  -- CreatePod
  creating : (pod : ℕ) → Goroutine
  caching : (pod monitor : ℕ) (notifier : Bool) → Goroutine
  finding : (pod monitor : ℕ) (key : String) → Goroutine
  choosing : (pod monitor : ℕ) (key : String) (has_instance : Bool) → Goroutine
  using : (pod monitor : ℕ) (key : String) (compute : Result (String × String)) → Goroutine
  connecting : (pod monitor : ℕ) (instance_id : String) → Goroutine
  launching : (pod monitor : ℕ) (instance_id : String) (client : Result (Option ℕ)) → Goroutine
  undoing dropping : (pod : ℕ) (error : String) → Goroutine
  counting : (error : String) → Goroutine
  marking : (pod monitor : ℕ) (instance_id : String) → Goroutine
  starting : (pod monitor : ℕ) → Goroutine
  telling : (pod : ℕ) → Goroutine
  tallying : Goroutine
  -- DeletePod
  deleting : (pod : ℕ) → Goroutine
  stopping : (pod : ℕ) (key : String) (meta_pod : Option MetaPod) → Goroutine
  terminating : (pod : ℕ) (key : String) (meta_pod : MetaPod) → Goroutine
  releasing : (pod : ℕ) (key : String) (terminated : Result (Unit {0})) → Goroutine
  removing : (pod : ℕ) (key : String) → Goroutine
  reporting : (pod : ℕ) → Goroutine
  -- UpdatePod
  updating : (pod : ℕ) → Goroutine
  replacing : (pod : ℕ) (key : String) (meta_pod : MetaPod) → Goroutine
  ended : Result (Unit {0}) → Goroutine

module _ {W : Type 0} ⦃env : Env W⦄ where
  -- The step of a call up to the next point.
  unfoldable pub advance : Goroutine → Go W Goroutine
  unfolding create_pod_monitor pod_is_warm_pool new_vkvma_client mark_deleted
  advance (creating pod) = do
    s ← get
    monitor ← create_pod_monitor pod s.default_handler
    pure (caching pod monitor s.notifier_set)
  advance (caching pod monitor notifier) = do
    p ← read_pod pod
    modify
        (cache_set (pod_key p) (record { pod = pod; monitor = some monitor; notifier = notifier }))
    pure (finding pod monitor (pod_key p))
  advance (finding pod monitor key) = do
    has_instance ← pod_has_instance pod
    pure (choosing pod monitor key has_instance)
  advance (choosing pod monitor key has_instance) = do
    compute ← choose_compute pod has_instance
    pure (using pod monitor key compute)
  advance (using pod monitor key (err e)) = do modify (cache_delete key); pure (ended (err e))
  advance (using pod monitor key (ok (instance_id, private_ip))) = do
    p ← read_pod pod
    write_pod pod (with_ips private_ip p)
    pure (connecting pod monitor instance_id)
  advance (connecting pod monitor instance_id) = do
    s ← get
    p ← read_pod pod
    client ←
        get_application_lifecycle_client
          (new_vkvma_client p.status.pod_ip s.config.vkvm_agent_connection_config.port)
    pure (launching pod monitor instance_id client)
  advance (launching pod monitor instance_id (err e)) = do
    inc grpc_app_client_errors
    pure (undoing pod e)
  advance (launching pod monitor instance_id (ok connection)) = do
    r ← call (env.launch_application connection)
    elim r [ err e ↦ pure (undoing pod e) | ok _ ↦ pure (marking pod monitor instance_id) ]
  advance (undoing pod e) = do _ ← delete_compute pod; pure (dropping pod e)
  advance (dropping pod e) = do
    p ← read_pod pod
    modify (cache_delete (pod_key p))
    pure (counting e)
  advance (counting e) = do inc launch_application_errors; pure (ended (err e))
  advance (marking pod monitor instance_id) = do
    s ← get
    if pod_is_warm_pool (length s.config.warm_pool_config)
        then (do
          p ← read_pod pod
          tagged ← update_ec2_tags instance_id set_in_use p
          elim tagged [ err e ↦ pure (ended (err e)) | ok _ ↦ pure (starting pod monitor) ])
        else pure (starting pod monitor)
  advance (starting pod monitor) = do start monitor; pure (telling pod)
  advance (telling pod) = do notify pod; pure tallying
  advance tallying = do inc pods_launched; pure (ended (ok tt))
  advance (deleting pod) = do
    s ← get
    p ← read_pod pod
    pure (stopping pod (pod_key p) (cache_get (pod_key p) s))
  advance (stopping pod key none) = panic "nil pointer dereference"
  advance (stopping pod key (some meta_pod)) = do
    stopped ← stop_pod_monitor (some meta_pod)
    elim stopped [ err e ↦ pure (ended (err e)) | ok _ ↦ pure (terminating pod key meta_pod) ]
  advance (terminating pod key meta_pod) = do
    terminated ← terminate_app meta_pod
    pure (releasing pod key terminated)
  advance (releasing pod key terminated) = do
    (elim terminated [ err _ ↦ inc terminate_application_errors | ok _ ↦ pure tt ])
    deleted ← delete_compute pod
    elim deleted [ err e ↦ pure (ended (err e)) | ok _ ↦ pure (removing pod key) ]
  advance (removing pod key) = do modify (cache_delete key); pure (reporting pod)
  advance (reporting pod) = do
    s ← get
    p ← read_pod pod
    write_pod pod (
        mark_deleted "EC2 Provider terminated container upon deletion" (env.now s.world)
          "ProviderPodContainerDeleted" p)
    notify_pod_delete pod
    pure (ended (ok tt))
  advance (updating pod) = do
    s ← get
    p ← read_pod pod
    elim (cache_get (pod_key p) s) [
      | none ↦ pure (
          ended (
            err (
              str_append "Can't find cache member with key "
                (str_append (pod_key p) " to update"))))
      | some meta_pod ↦ pure (replacing pod (pod_key p) meta_pod)
    ]
  advance (replacing pod key meta_pod) = do
    modify (cache_set key (record meta_pod { pod = pod }))
    pure (ended (ok tt))
  advance (ended r) = pure (ended r)

-- The process and the goroutines by number. A `*MetaPod` is shared by the cache and by the goroutines
-- that have looked it up; its monitor, which never changes, tells which one it is. `written` gives by
-- monitor the pod that an UpdatePod has written into it last.
pub record Workers (W : Type 0) : Type 0 where
  pub process : Process W
  pub goroutines : ℕ → Goroutine
  pub written : ℕ → Option ℕ

-- What Kubernetes asks of a goroutine.
pub data Request : Type 0 where
  create_pod_request update_pod_request delete_pod_request : (pod : ℕ) → Request
  no_request : Request

unfoldable pub begin : Request → Goroutine
begin (create_pod_request pod) = creating pod
begin (update_pod_request pod) = updating pod
begin (delete_pod_request pod) = deleting pod
begin no_request = ended (ok tt)

abbrev pub begun : {W : Type 0} → Process W → (ℕ → Request) → Workers W
begun s requests = record { process = s; goroutines = λ i. begin (requests i); written = λ _. none }

-- The key of the pod that it is about.
abbrev pub key_of : {W : Type 0} → Process W → Request → String
key_of s (create_pod_request pod) = pod_key (s.pods pod)
key_of s (update_pod_request pod) = pod_key (s.pods pod)
key_of s (delete_pod_request pod) = pod_key (s.pods pod)
key_of s no_request = ""

-- What a held `*MetaPod` points to now: `metaPod.pod` is the pod written last.
unfoldable pub held : (ℕ → Option ℕ) → MetaPod → MetaPod
held written meta_pod = elim meta_pod.monitor [
  | none ↦ meta_pod
  | some m ↦ elim (written m) [ none ↦ meta_pod | some pod ↦ record meta_pod { pod = pod } ]
]

-- The goroutine as it finds that: DeletePod reads `metaPod.pod` when it terminates the application.
unfoldable pub refreshed : (ℕ → Option ℕ) → Goroutine → Goroutine
refreshed written (terminating pod key meta_pod) = terminating pod key (held written meta_pod)
refreshed written g = g

-- The write of UpdatePod, `metaPod.pod = pod`.
unfoldable pub noted : Goroutine → (ℕ → Option ℕ) → ℕ → Option ℕ
noted (replacing pod key meta_pod) written = elim meta_pod.monitor [
  | none ↦ written
  | some m ↦ update written m (some pod)
]
noted g written = written

module _ {W : Type 0} ⦃env : Env W⦄ where
  -- One goroutine moves; a panic of one is the end of all.
  unfoldable pub turn : ℕ → Workers W → Option (Workers W)
  unfolding refreshed noted
  turn i w = elim (advance (refreshed w.written (w.goroutines i)) w.process) [
    | done g s ↦ some (record {
      process = s;
      goroutines = update w.goroutines i g;
      written = noted (w.goroutines i) w.written;
    })
    | crash e s ↦ none
  ]

  -- They move in the given order.
  unfoldable pub interleave : List ℕ → Workers W → Option (Workers W)
  unfolding turn
  interleave [] w = some w
  interleave (i ∷ order) w = elim (turn i w) [ none ↦ none | some v ↦ interleave order v ]
