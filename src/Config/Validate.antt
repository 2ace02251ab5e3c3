-- ===== src/Config/Validate.antt =====
-- internal/config/loaders.go and manager.go: validation, and the start of the configuration.
use aws_virtual_kubelet.Base.{
  ℕ, suc, Option, none, some, String, str_append, str_eq, Bool, ◌&&◌, not, List, [], ◌∷◌, ◌++◌,
  length, ◌==◌, if◌then◌else◌,
}
use aws_virtual_kubelet.Cloud.{Result, ok, err}
use aws_virtual_kubelet.Utils.Text.{itoa}
use aws_virtual_kubelet.Config.{
  ProviderConfig, WarmPoolConfig, HealthConfig, VkvmaConfig, BootstrapAgent,
}

-- strings.Join
unfoldable pub join : List String → String → String
join [] sep = ""
join (s ∷ []) sep = s
join (s ∷ rest) sep = str_append s (str_append sep (join rest sep))

abbrev is_zero_health : HealthConfig → Bool
is_zero_health h =
    h.unhealthy_threshold_count == 0
    && h.health_check_interval_seconds == 0
    && h.stream_retry_interval_seconds == 0

abbrev is_zero_vkvma : VkvmaConfig → Bool
is_zero_vkvma v =
    v.port == 0
    && v.timeout_seconds == 0
    && v.min_connect_timeout_seconds == 0
    && v.health_check_interval_seconds == 0
    && v.base_delay_seconds == 0
    && v.multiplier == 0
    && v.jitter == 0
    && v.max_delay_seconds == 0
    && not v.keepalive_enabled
    && v.keepalive_time_seconds == 0
    && v.keepalive_timeout_seconds == 0

abbrev is_zero_agent : BootstrapAgent → Bool
is_zero_agent b =
    str_eq b.s3_bucket "" && str_eq b.s3_key "" && b.grpc_port == 0 && str_eq b.init_data ""

-- `reflect.DeepEqual(pc, &ProviderConfig{})`, part by part; an empty list of pools counts as nil
unfoldable pub is_empty_config : ProviderConfig → Bool
is_empty_config pc =
    str_eq pc.management_subnet ""
    && str_eq pc.region ""
    && str_eq pc.cluster_name ""
    && pc.aws_client_timeout_seconds == 0
    && pc.aws_client_dialer_timeout_seconds == 0
    && pc.status_interval_seconds == 0
    && is_zero_health pc.health_config
    && is_zero_vkvma pc.vkvm_agent_connection_config
    && str_eq pc.vm_config.default_ami ""
    && str_eq pc.vm_config.init_data ""
    && is_zero_agent pc.bootstrap_agent
    && length pc.warm_pool_config == 0

-- an entry of the list of errors, if a member is missing
abbrev pub require : Bool → String → List String
require missing message = if missing then message ∷ [] else []

abbrev pub pool_message : String → ℕ → String
pool_message message i = str_append message (str_append (itoa i) "]")

-- the errors of the warm pool with the index `i`
unfoldable pub pool_errors : ℕ → WarmPoolConfig → List String
pool_errors i wpc =
    require (str_eq wpc.image_id "")
      (pool_message "WarmPoolConfig.ImageID is required for WarmPoolConfig[" i)
    ++ (require (str_eq wpc.instance_type "")
          (pool_message "WarmPoolConfig.InstanceType is required for WarmPoolConfig[" i)
        ++ require (length wpc.subnets == 0)
            (pool_message "WarmPoolConfig.Subnets can't be empty for WarmPoolConfig[" i))

-- `validateWarmPoolConfig`, from the pool with the index `i` on
unfoldable pub validate_warm_pool_config : ℕ → List WarmPoolConfig → List String → List String
validate_warm_pool_config i [] errs = errs
validate_warm_pool_config i (wpc ∷ wpcs) errs =
    validate_warm_pool_config (suc i) wpcs (errs ++ pool_errors i wpc)

unfoldable pub report : List String → Result (Unit {0})
report [] = ok tt
report (e ∷ es) = err (str_append "config validation failed: " (join (e ∷ es) ", "))

-- `validate`
unfoldable pub validate : ProviderConfig → Result (Unit {0})
unfolding report
validate pc =
    if is_empty_config pc
    then err "config is empty"
    else report (
        validate_warm_pool_config 0 pc.warm_pool_config
          (require (str_eq pc.management_subnet "") "ManagementSubnet is required"))

-- The two loaders. A file gives an error when it is read, or else what `json.Unmarshal` leaves of
-- the configuration, with its error.
pub data Loader : Type 0 where
  file_loader : Result (ProviderConfig × Result (Unit {0})) → Loader
  direct_loader : ProviderConfig → Loader

-- `load`: the package's configuration after it, and the error
unfoldable pub load : Loader → ProviderConfig → ProviderConfig × Result (Unit {0})
load (file_loader (err e)) old = (old, err e)
load (file_loader (ok parsed)) old = parsed
load (direct_loader config) old = (config, ok tt)

-- the end of `InitConfig`, with what `defaults.Set` left
unfoldable pub check_defaults :
    ProviderConfig × Result (Unit {0}) → ProviderConfig × Result (Unit {0})
check_defaults (config, err e) = (config, err e)
check_defaults (config, ok _) = (config, validate config)

-- `InitConfig` once the configuration is loaded
unfoldable pub set_and_check :
    (ProviderConfig → ProviderConfig × Result (Unit {0}))
    → ProviderConfig × Result (Unit {0})
    → ProviderConfig × Result (Unit {0})
set_and_check set_defaults (loaded, err e) = (loaded, err e)
set_and_check set_defaults (loaded, ok _) = check_defaults (set_defaults loaded)

-- `InitConfig`, with `defaults.Set` as a parameter, which sets members of a configuration: the
-- package's configuration after it, and the error.
unfoldable pub init_config :
    (ProviderConfig → ProviderConfig × Result (Unit {0}))
    → Option Loader
    → ProviderConfig
    → ProviderConfig × Result (Unit {0})
init_config set_defaults none old = (old, err "loader cannot be nil")
init_config set_defaults (some loader) old = set_and_check set_defaults (load loader old)
