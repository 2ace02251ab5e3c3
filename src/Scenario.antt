-- ===== src/Scenario.antt =====
-- A small world outside the provider, in which the theorems are applied: EC2 as a list of
-- instances, and a number of calls of CreateTags and TerminateInstances that still succeed.
use aws_virtual_kubelet.Base.{
  pos, ℕ, zero, suc, ◌-◌, ◌%◌, String, str_append, true, false, List, [], ◌∷◌, none, some, Option,
  Bool, arith,
}
use aws_virtual_kubelet.Kube.{Pod}
use aws_virtual_kubelet.Config.{ProviderConfig, WarmPoolConfig}
use aws_virtual_kubelet.Cloud.{Env, IsFair, Result, ok, err, Instance, NetworkInterface}
use aws_virtual_kubelet.Process.{Process, MetaPod}
use aws_virtual_kubelet.WarmPool.State.{State, Ec2Info, empty_state}
use aws_virtual_kubelet.WarmPool.Launch.{empty_pod}
use aws_virtual_kubelet.Utils.Text.{itoa}
use aws_virtual_kubelet.Health.PodMonitor.{new_pod_monitor}

pub record World : Type 0 where
  pub instances : List Instance
  pub launched : ℕ
  pub terminated : List String
  pub good_calls : ℕ

abbrev spend : World → Result (Unit {0}) × World
spend w = elim w.good_calls [
  | zero ↦ (err "denied", w)
  | suc n ↦ (ok tt, record w { good_calls = n })
]

abbrev new_instance : ℕ → Instance
new_instance n = record {
  instance_id = str_append "i-" (itoa n);
  private_ip_address = some "10.0.0.7";
  iam_instance_profile = none;
  security_groups = [];
  state_name = "pending";
  tags = [];
}

abbrev pub node_interface : NetworkInterface
node_interface = record { private_dns_name = "ip-10-0-0-9"; network_interface_id = "eni-1" }

instance abbrev pub small_env : Env World
small_env = record {
  load_default_config = λ w. (ok tt, w);
  run_instances =
      λ _ w. (ok (new_instance w.launched ∷ []), record w { launched = suc w.launched });
  create_tags = λ _ _ w. spend w;
  terminate_instances = λ ids w. elim w.good_calls [
    | zero ↦ (err "denied", w)
    | suc n ↦ (ok ids, record w { terminated = ids; good_calls = n })
  ];
  describe_instances =
      λ _ w. (ok (record { reservations = w.instances ∷ []; next_token = none }), w);
  describe_instance_status = λ _ w. (ok (some "running" ∷ []), w);
  wait_instance_running = λ _ w. (ok tt, w);
  describe_network_interfaces =
      λ _ w. elim w.good_calls [ zero ↦ (ok [], w) | suc n ↦ (ok (node_interface ∷ []), w) ];
  create_network_interface = λ _ _ _ w. (err "no subnet", w);
  delete_network_interface = λ _ w. (ok tt, w);
  describe_security_groups = λ _ w. (ok [], w);
  modify_instance_groups = λ _ _ w. (ok tt, w);
  presign_get_object = λ _ _ w. (ok "https://agent", w);
  json_string_map = λ _. [];
  dial = λ _ _ w. ((ok 0, false), w);
  is_ready = λ _ _. true;
  launch_application = λ _ w. (ok tt, w);
  terminate_application = λ _ w. (ok tt, w);
  watch = λ _ w. (ok tt, w);
  watch_application_health = λ _ w. (err "unavailable", w);
  clean = λ path. path;
  is_missing = λ _ _. false;
  build_config_from_flags = λ _ w. (ok tt, w);
  new_for_config = λ w. (ok tt, w);
  list_pods = λ _ _ w. (ok [], w);
  get_pod_object = λ _ _ w. (err "not found", w);
  delete_pod_object = λ _ _ w. (ok tt, w);
  intn = λ n w. (w.launched % n, w);
  first_key = λ n w. ((n - 1) % n, w);
  now = λ w. w.launched;
}

pub small_env-IsFair : IsFair small_env
small_env-IsFair = record { intn-lt = λ n w h. omega arith; first_key-lt = λ n w h. omega arith }

abbrev pub ready_instance : Instance
ready_instance = record {
  instance_id = "i-ready";
  private_ip_address = some "10.0.0.1";
  iam_instance_profile = none;
  security_groups = [];
  state_name = "running";
  tags = record { key = "aws-virtual-kubelet/WarmpoolStatus"; value = "Operation.Ready" } ∷ [];
}

abbrev pub small_pool : ℕ → WarmPoolConfig
small_pool n = record {
  desired_count = pos n;
  iam_instance_profile = "profile";
  security_groups = [];
  key_pair = "";
  image_id = "ami";
  instance_type = "mac1.metal";
  subnets = "subnet-1" ∷ "subnet-2" ∷ [];
}

abbrev pub small_config : List WarmPoolConfig → ProviderConfig
small_config pools = record {
  region = "us-west-2";
  cluster_name = "cluster";
  management_subnet = "subnet-1";
  aws_client_timeout_seconds = 30;
  aws_client_dialer_timeout_seconds = 5;
  status_interval_seconds = 15;
  health_config = record {
    unhealthy_threshold_count = 3;
    health_check_interval_seconds = 60;
    stream_retry_interval_seconds = 10;
  };
  vkvm_agent_connection_config = record {
    port = 8200;
    timeout_seconds = 300;
    min_connect_timeout_seconds = 60;
    health_check_interval_seconds = 60;
    base_delay_seconds = 1;
    multiplier = 1500;
    jitter = 500;
    max_delay_seconds = 120;
    keepalive_enabled = false;
    keepalive_time_seconds = 60;
    keepalive_timeout_seconds = 120;
  };
  vm_config = record { default_ami = ""; init_data = "" };
  bootstrap_agent = record { s3_bucket = "b"; s3_key = "k"; grpc_port = 8200; init_data = "" };
  warm_pool_config = pools;
}

abbrev pub web_pod : Pod
web_pod = record empty_pod { name = "web"; namespace = "default"; annotations = some [] }

-- A process with a warm pool of two, one ready instance in EC2, and `calls` good calls of CreateTags or
-- TerminateInstances.
abbrev pub process : ℕ → Process World
process calls = record {
  world = record {
    instances = ready_instance ∷ [];
    launched = 0;
    terminated = [];
    good_calls = calls;
  };
  config = small_config (small_pool 2 ∷ []);
  node_name = "fargate-10.0.0.9";
  vk_state = empty_state;
  pods = λ _. web_pod;
  next_pod = 1;
  pod_monitors = λ n. record { monitors = []; pod = 0; handler = 0; cancel = none };
  next_monitor = 0;
  receiving = λ _. false;
  next_handler = 1;
  default_handler = 0;
  cache = [];
  notifier_set = true;
  notified = [];
  metrics = [];
}

-- a pod on the instance, and the entry of its cache
abbrev pub placed_pod : Pod
placed_pod = record web_pod {
  annotations = some (("compute.amazonaws.com/instance-id", "i-ready") ∷ []);
}

abbrev pub entry : MetaPod
entry = record { pod = 0; monitor = some 0; notifier = true }

-- The process with that pod in its cache, whose monitor has been started or not.
abbrev pub watching : Option Bool → ℕ → Process World
watching cancel calls = record (process calls) {
  pods = λ _. placed_pod;
  cache = ("default-web", entry) ∷ [];
  pod_monitors = λ _. record (new_pod_monitor 0 0) { cancel = cancel };
}

abbrev pub info : String → Ec2Info
info id = record {
  instance_id = id;
  private_ip = "10.0.0.3";
  iam_profile = "";
  security_groups = [];
  retry_count = 0;
}

-- A warm pool with two ready instances and one that is provisioning.
abbrev pub full_state : State
full_state = record empty_state {
  ready_ec2 = ("i-1", info "i-1") ∷ ("i-2", info "i-2") ∷ [];
  provisioning_ec2 = ("i-3", info "i-3") ∷ [];
}

abbrev pub full_process : Process World
full_process = record (process 1) { vk_state = full_state }
