-- ===== src/Provider/Startup.antt =====
-- The start of a process: NewEc2Provider of internal/ec2provider/ec2provider.go with NewWarmPool,
-- fillAndMaintain and NewComputeManager, and the callback that
-- cmd/virtual-kubelet/main.go runs before its command.
use aws_virtual_kubelet.Base.{ℕ, String, List, [], none, some, length, ltb, if◌then◌else◌}
use aws_virtual_kubelet.Kube.{Pod}
use aws_virtual_kubelet.Cloud.{Env, Result, ok, err}
use aws_virtual_kubelet.Config.{ProviderConfig}
use aws_virtual_kubelet.Config.Validate.{file_loader, init_config}
use aws_virtual_kubelet.Process.{Process, Go, ◌>>=◌, ◌>>◌, pure, panic, get, modify}
use aws_virtual_kubelet.Awsutils.UserData.{new_client}
use aws_virtual_kubelet.EniNode.{EniNode, get_or_create_eni_node}
use aws_virtual_kubelet.WarmPool.Refresh.{initial_warm_pool_creation}
use aws_virtual_kubelet.KubeClient.{new_k8s_client, client_get_pods}
use aws_virtual_kubelet.Cache.{with_cache, populate}
use aws_virtual_kubelet.Provider.Monitoring.{new_check_handler}
use aws_virtual_kubelet.Provider.Console.{verbosity_levels}
use aws_virtual_kubelet.Provider.Upkeep.{populate_cache}

-- What a process is started with: its command line, the configuration file as it is read and parsed, `defaults.Set`,
-- the environment's `POD_NAME`, the path of the Kubernetes configuration, the node name option.
pub record Launch : Type 0 where
  pub arguments : List String
  pub file : Result (ProviderConfig × Result (Unit {0}))
  pub set_defaults : ProviderConfig → ProviderConfig × Result (Unit {0})
  pub vk_pod_name : String
  pub kube_config_path : String
  pub node_name : String

module _ {W : Type 0} ⦃env : Env W⦄ where
  -- `InitConfig`, whose error is logged. A file that cannot be read leaves a nil configuration, which
  -- `GetOrCreateEniNode` reads next.
  unfoldable pub start_config : Launch → Go W (Unit {0})
  unfolding init_config
  start_config launch = elim launch.file [
    | err _ ↦ panic "nil pointer dereference"
    | ok parsed ↦ modify λ s. record s {
      config = (init_config launch.set_defaults (some (file_loader (ok parsed))) s.config).0;
    }
  ]

  -- `NewWarmPool`; its configuration is the process's
  unfoldable pub new_warm_pool : Go W (Result (Unit {0}))
  unfolding new_client
  new_warm_pool = new_client

  -- `fillAndMaintain` up to the start of its tickers
  unfoldable pub fill_and_maintain : Go W (Unit {0})
  fill_and_maintain = do
    s ← get
    if ltb 0 (length s.config.warm_pool_config) then initial_warm_pool_creation else pure tt

  -- `NewComputeManager`
  unfoldable pub new_compute_manager : Go W (Result (Unit {0}))
  unfolding new_client
  new_compute_manager = new_client

  -- an error of `NewWarmPool` or `NewComputeManager`
  unfoldable pub must : String → Result (Unit {0}) → Go W (Unit {0})
  must message (ok _) = pure tt
  must message (err _) = panic message

  abbrev set_default_handler : ℕ → Process W → Process W
  set_default_handler handler s = record s { default_handler = handler }

  -- `NewEc2Provider` once the node is known
  unfoldable pub equip : EniNode → Go W (Result EniNode)
  unfolding must new_warm_pool new_compute_manager new_check_handler
  equip node = do
    pool ← new_warm_pool
    must "handle warm pool instantiation error" pool
    fill_and_maintain
    manager ← new_compute_manager
    must "handle compute manager instantiation error" manager
    handler ← new_check_handler
    modify (set_default_handler handler)
    pure (ok node)

  -- `updateVerbosityLevel`; log lines are left out, so that a panic is all that is seen of it.
  unfoldable pub update_verbosity_level : List String → Go W (Unit {0})
  unfolding verbosity_levels
  update_verbosity_level arguments = elim (verbosity_levels arguments) [
    | none ↦ panic "index out of range"
    | some _ ↦ pure tt
  ]

  -- `NewEc2Provider`, up to the start of its loops
  unfoldable pub new_ec2_provider : Launch → Go W (Result EniNode)
  unfolding update_verbosity_level start_config
  new_ec2_provider launch = do
    update_verbosity_level launch.arguments
    start_config launch
    node ← get_or_create_eni_node launch.vk_pod_name
    elim node [ err e ↦ pure (err e) | ok n ↦ equip n ]

  -- `NewK8sClient` and `GetPods`. The error of the first is overwritten by that of the second, whose
  -- receiver is then nil.
  unfoldable pub get_k8s_pods : String → String → Go W (Result (List Pod))
  unfolding new_k8s_client client_get_pods
  get_k8s_pods kube_config_path node_name = do
    client ← new_k8s_client kube_config_path
    client_get_pods client node_name

  -- `NewPodCache`, `Populate` and `PopulateCache` over the pods of the node
  unfoldable pub rehydrate : List Pod → Go W (Unit {0})
  unfolding populate
  rehydrate pods = do modify (with_cache []); populate pods; s ← get; populate_cache s.cache

  -- the callback, once there is a provider: the name that it sets for the node
  unfoldable pub load_pods : Launch → EniNode → Go W (Result String)
  unfolding get_k8s_pods rehydrate
  load_pods launch node = do
    pods ← get_k8s_pods launch.kube_config_path node.name
    elim pods [ err e ↦ pure (err e) | ok items ↦ do rehydrate items; pure (ok node.name) ]

  -- the callback of `WithPersistentPreRunCallback`; `Fatal` ends the process
  unfoldable pub pre_run : Launch → Go W (Result String)
  pre_run launch = do
    created ← new_ec2_provider launch
    elim created [ err e ↦ panic e | ok node ↦ load_pods launch node ]
