-- ===== src/Cloud.antt =====
-- What the provider calls and does not implement: the AWS SDK, the gRPC connection to the agent in
-- the VM, Go's random numbers and map order, and the clock. `W` is the state of all of that.
use aws_virtual_kubelet.Kube.{Pod}
use aws_virtual_kubelet.Base.{ℕ, ◌<◌, String, Bool, List, Option}

-- A Go result with an `error`: the error is its message.
pub data Result {ℓ} (A : Type ℓ) : Type ℓ where
  ok : A → Result A
  err : String → Result A

-- vendor/github.com/aws/aws-sdk-go-v2/service/ec2
pub record Tag : Type 0 where
  pub key : String
  pub value : String

pub record TagSpecification : Type 0 where
  pub resource_type : String
  pub tags : List Tag

pub record RunInstancesInput : Type 0 where
  pub iam_instance_profile : String
  pub image_id : String
  pub instance_type : String
  pub max_count : ℕ
  pub min_count : ℕ
  pub security_group_ids : List String
  pub subnet_id : String
  pub tag_specifications : List TagSpecification
  pub user_data : String
  pub key_name : Option String

pub record Instance : Type 0 where
  pub instance_id : String
  pub private_ip_address : Option String
  pub iam_instance_profile : Option String
  pub security_groups : List String
  pub state_name : String
  pub tags : List Tag

pub record Filter : Type 0 where
  pub name : String
  pub values : List String

pub record DescribeInstancesInput : Type 0 where
  pub instance_ids : List String
  pub filters : List Filter
  pub next_token : Option String

pub record DescribeInstancesOutput : Type 0 where
  -- the instances of each reservation
  pub reservations : List (List Instance)
  pub next_token : Option String

pub record NetworkInterface : Type 0 where
  pub private_dns_name : String
  pub network_interface_id : String

-- The calls that leave the program. Each gives its answer and the world after it.
pub record Env (W : Type 0) : Type 0 where
  -- aws-sdk-go-v2/config.LoadDefaultConfig
  pub load_default_config : W → Result (Unit {0}) × W
  -- aws-sdk-go-v2/service/ec2
  pub run_instances : RunInstancesInput → W → Result (List Instance) × W
  pub create_tags : List String → List Tag → W → Result (Unit {0}) × W
  pub terminate_instances : List String → W → Result (List String) × W
  pub describe_instances : DescribeInstancesInput → W → Result DescribeInstancesOutput × W
  -- for each status the name of its state, if it has one
  pub describe_instance_status : List String → W → Result (List (Option String)) × W
  pub wait_instance_running : List String → W → Result (Unit {0}) × W
  pub describe_network_interfaces : Filter → W → Result (List NetworkInterface) × W
  pub create_network_interface : String → String → List Tag → W → Result NetworkInterface × W
  pub delete_network_interface : String → W → Result (Unit {0}) × W
  pub describe_security_groups : Filter → W → Result (List String) × W
  pub modify_instance_groups : String → List String → W → Result (Unit {0}) × W
  -- aws-sdk-go-v2/service/s3
  pub presign_get_object : String → String → W → Result String × W
  -- encoding/json.Unmarshal of a text into a map of texts, as far as it gets
  pub json_string_map : String → List (String × String)
  -- google.golang.org/grpc.DialContext with an address and a timeout in seconds, and whether the
  -- deadline has passed when it returns
  pub dial : String → ℕ → W → (Result ℕ × Bool) × W
  pub is_ready : ℕ → W → Bool
  -- the calls of the agent's ApplicationLifecycle service, over a connection
  pub launch_application : Option ℕ → W → Result (Unit {0}) × W
  pub terminate_application : Option ℕ → W → Result (Unit {0}) × W
  -- the streams of its health service and of that service
  pub watch : Option ℕ → W → Result (Unit {0}) × W
  pub watch_application_health : Option ℕ → W → Result (Unit {0}) × W
  -- path/filepath.Clean, and whether os.Stat finds that there is no such file
  pub clean : String → String
  pub is_missing : String → W → Bool
  -- k8s.io/client-go: the configuration at a path, or else that of the cluster; a client; the pods of
  -- a namespace, or of all of them, by a field selector; a pod by its namespace and name
  pub build_config_from_flags : String → W → Result (Unit {0}) × W
  pub new_for_config : W → Result (Unit {0}) × W
  pub list_pods : String → String → W → Result (List Pod) × W
  pub get_pod_object : String → String → W → Result Pod × W
  pub delete_pod_object : String → String → W → Result (Unit {0}) × W
  -- math/rand.Intn, and which of n keys a `range` over a map yields first
  pub intn : ℕ → W → ℕ × W
  pub first_key : ℕ → W → ℕ × W
  pub now : W → ℕ

-- What Go documents of the two choices: they lie below their bound.
pub record IsFair {W : Type 0} (env : Env W) : Type 0 where
  pub intn-lt : (n : ℕ) (w : W) → 0 < n → (env.intn n w).0 < n
  pub first_key-lt : (n : ℕ) (w : W) → 0 < n → (env.first_key n w).0 < n
