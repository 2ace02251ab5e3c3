-- ===== src/Config.antt =====
-- internal/config: the configuration and its validation.
pub mod Validate
pub mod Valid
use aws_virtual_kubelet.Base.{ℤ, ℕ, String, Bool, List}

pub record VmConfig : Type 0 where
  pub default_ami : String
  pub init_data : String

pub record BootstrapAgent : Type 0 where
  pub s3_bucket : String
  pub s3_key : String
  pub grpc_port : ℕ
  pub init_data : String

pub record WarmPoolConfig : Type 0 where
  pub desired_count : ℤ
  pub iam_instance_profile : String
  pub security_groups : List String
  pub key_pair : String
  pub image_id : String
  pub instance_type : String
  pub subnets : List String

pub record HealthConfig : Type 0 where
  pub unhealthy_threshold_count : ℕ
  pub health_check_interval_seconds : ℕ
  pub stream_retry_interval_seconds : ℕ

-- The two factors of the backoff are floats in the source; here they are in thousandths.
pub record VkvmaConfig : Type 0 where
  pub port : ℕ
  pub timeout_seconds : ℕ
  pub min_connect_timeout_seconds : ℕ
  pub health_check_interval_seconds : ℕ
  pub base_delay_seconds : ℕ
  pub multiplier : ℕ
  pub jitter : ℕ
  pub max_delay_seconds : ℕ
  pub keepalive_enabled : Bool
  pub keepalive_time_seconds : ℕ
  pub keepalive_timeout_seconds : ℕ

pub record ProviderConfig : Type 0 where
  pub region : String
  pub cluster_name : String
  pub management_subnet : String
  pub aws_client_timeout_seconds : ℕ
  pub aws_client_dialer_timeout_seconds : ℕ
  pub status_interval_seconds : ℕ
  pub health_config : HealthConfig
  pub vkvm_agent_connection_config : VkvmaConfig
  pub vm_config : VmConfig
  pub bootstrap_agent : BootstrapAgent
  pub warm_pool_config : List WarmPoolConfig
