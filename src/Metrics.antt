-- ===== src/Metrics.antt =====
-- internal/metrics/vk_metrics.go: the counters, each with its name in Prometheus.
pub mod Registration
use aws_virtual_kubelet.Base.{String, List, [], ◌∷◌}

-- A counter, as `promauto.NewCounter` makes it of its options.
pub record Metric : Type 0 where
  pub name : String
  pub help : String

abbrev pub pods_launched : Metric
pods_launched = record {
  name = "vkec2_pods_created_total";
  help = "The total number of pods created";
}

abbrev pub ec2_launched : Metric
ec2_launched = record {
  name = "vkec2_ec2_launched_total";
  help = "The total number of EC2 instances created using create pod function";
}

abbrev pub pods_deleted : Metric
pods_deleted = record {
  name = "vkec2_pods_deleted_total";
  help = "The total number of pods deleted";
}

abbrev pub grpc_connection_errors : Metric
grpc_connection_errors = record {
  name = "vkec2_grpc_connection_errors_total";
  help = "The total number of GRPC connection errors";
}

abbrev pub grpc_connection_timeouts : Metric
grpc_connection_timeouts = record {
  name = "vkec2_grpc_connection_timeout_errors_total";
  help = "The total number of GRPC connection timeout errors";
}

abbrev pub ec2_launch_errors : Metric
ec2_launch_errors = record {
  name = "vkec2_ec2_launch_errors_total";
  help = "The total number of errors during EC2 launch";
}

abbrev pub ec2_termination_errors : Metric
ec2_termination_errors = record {
  name = "vkec2_ec2_termination_errors_total";
  help = "The total number of errors during EC2 termination";
}

abbrev pub ec2_terminated : Metric
ec2_terminated = record {
  name = "vkec2_ec2_ec2_terminated_total";
  help = "The total number of EC2 instances terminated using delete pod function";
}

abbrev pub create_eni_errors : Metric
create_eni_errors = record {
  name = "vkec2_create_eni_errors_total";
  help = "The total number of errors during network interface creation";
}

abbrev pub delete_eni_errors : Metric
delete_eni_errors = record {
  name = "vkec2_delete_eni_errors_total";
  help = "The total number of errors during network interface deletion";
}

abbrev pub describe_eni_errors : Metric
describe_eni_errors = record {
  name = "vkec2_describe_eni_errors_total";
  help = "The total number of errors during describe network interface";
}

abbrev pub eni_created : Metric
eni_created = record {
  name = "vkec2_eni_created_total";
  help = "The total number of network interfaces created";
}

abbrev pub eni_deleted : Metric
eni_deleted = record {
  name = "vkec2_eni_deleted_total";
  help = "The total number of network interfaces deleted";
}

abbrev pub eni_described : Metric
eni_described = record {
  name = "vkec2_eni_described_total";
  help = "The total number of times describe network interfaces invoked";
}

abbrev pub describe_ec2_errors : Metric
describe_ec2_errors = record {
  name = "vkec2_describe_ec2_errors_total";
  help = "The total number of errors during describe EC2";
}

abbrev pub launch_application_errors : Metric
launch_application_errors = record {
  name = "vkec2_launch_application_grpc_errors_total";
  help = "The total number of grpc errors during launch application";
}

abbrev pub terminate_application_errors : Metric
terminate_application_errors = record {
  name = "vkec2_terminate_application_grpc_errors_total";
  help = "The total number of grpc errors during terminate application";
}

abbrev pub get_aapplication_health_errors : Metric
get_aapplication_health_errors = record {
  name = "vkec2_get_application_health_grpc_errors_total";
  help = "The total number of grpc errors during get application health";
}

abbrev pub node_name_errors : Metric
node_name_errors = record {
  name = "vkec2_get_nodename_errors_total";
  help = "The total number of errors during get nodeName operation";
}

abbrev pub health_check_pod_cache_error : Metric
health_check_pod_cache_error = record {
  name = "vkec2_get_pod_from_local_cache_errors_total";
  help = "The total number of errors during get pod from local vk cache";
}

abbrev pub health_check_grpc_error : Metric
health_check_grpc_error = record {
  name = "vkec2_check_pod_health_grpc_errors_total";
  help = "The total number of errors during check pod health grpc fun";
}

abbrev pub missing_health_check_response : Metric
missing_health_check_response = record {
  name = "vkec2_check_pod_health_nil_response_total";
  help = "The total number of nil responses from check pod health grpc call";
}

abbrev pub health_check_pods_deleted : Metric
health_check_pods_deleted = record {
  name = "vkec2_pods_deleted_from_health_checks_total";
  help = "The total number of unhealthy pods deleted from health checks routine";
}

abbrev pub get_agent_identity_errors : Metric
get_agent_identity_errors = record {
  name = "vkec2_get_agent_identity_grpc_errors_total";
  help = "The total number of grpc errors during get agent idenity";
}

abbrev pub create_ca_cert_errors : Metric
create_ca_cert_errors = record {
  name = "vkec2_create_ca_cert_errors_total";
  help = "The total number of errors during CA cert creation";
}

abbrev pub create_cert_signed_by_ca_cert_errors : Metric
create_cert_signed_by_ca_cert_errors = record {
  name = "vkec2_create_cert_signed_by_ca_errors_total";
  help = "The total number of errors during creation of server and client certs";
}

abbrev pub get_secret_errors : Metric
get_secret_errors = record {
  name = "vkec2_retrieve_secret_from_k8s_total";
  help = "The total number of errors during get secret operation";
}

abbrev pub create_secret_errors : Metric
create_secret_errors = record {
  name = "vkec2_create_secret_errors_total";
  help = "The total number of errors during create secret operation";
}

abbrev pub update_secret_errors : Metric
update_secret_errors = record {
  name = "vkec2_update_secret_errors_total";
  help = "The total number of errors during update secret operation";
}

abbrev pub secret_created : Metric
secret_created = record {
  name = "vkec2_create_secret_from_k8s_total";
  help = "The total number of a secret is created";
}

abbrev pub secret_updated : Metric
secret_updated = record {
  name = "vkec2_update_secret_from_k8s_total";
  help = "The total number times a secret is updated";
}

abbrev pub empty_ca_cert_cache : Metric
empty_ca_cert_cache = record {
  name = "vkec2_ca_certs_missing_in_cache_total";
  help = "The total number times CA cert not found in VK cache";
}

abbrev pub empty_client_cert_cache : Metric
empty_client_cert_cache = record {
  name = "vkec2_client_certs_missing_in_cache_total";
  help = "The total number times client cert not found in VK cache";
}

abbrev pub empty_ca_cert_secret : Metric
empty_ca_cert_secret = record {
  name = "vkec2_ca_certs_missing_in_secret_total";
  help = "The total number times CA cert not found in k8s secret";
}

abbrev pub expired_ca_cert : Metric
expired_ca_cert = record {
  name = "vkec2_expired_ca_certs_total";
  help = "The total number times CA cert is expired";
}

abbrev pub expired_client_cert : Metric
expired_client_cert = record {
  name = "vkec2_expired_client_certs_total";
  help = "The total number times client cert is expired";
}

abbrev pub health_check_state_unhealthy : Metric
health_check_state_unhealthy = record {
  name = "vkec2_health_checks_unhealthy_pod_status";
  help = "The total number of unhealthy pods identified by health checks monitor";
}

abbrev pub ec2_tag_creation_errors : Metric
ec2_tag_creation_errors = record {
  name = "vkec2_ec2_create_tag_errors_total";
  help = "The total number of errors creating ec2 tags";
}

abbrev pub warm_ec2_termination_errors : Metric
warm_ec2_termination_errors = record {
  name = "vkec2_warm_ec2_termination_errors_total";
  help = "The total number of errors during warm EC2 instances termination";
}

abbrev pub warm_ec2_launched : Metric
warm_ec2_launched = record {
  name = "vkec2_warm_ec2_launched_total";
  help = "The total number of warm EC2 instances created";
}

abbrev pub warm_ec2_terminated : Metric
warm_ec2_terminated = record {
  name = "vkec2_warm_ec2_terminated_total";
  help = "The total number of warm EC2 instances terminated";
}

abbrev pub warm_ec2_launch_errors : Metric
warm_ec2_launch_errors = record {
  name = "vkec2_warm_ec2_launch_errors_total";
  help = "The total number of errors during warmpool EC2 launch";
}

abbrev pub grpc_app_client_errors : Metric
grpc_app_client_errors = record {
  name = "vkec2_grpc_client_errors_total";
  help = "The total number of errors getting gRPC connection to application lifecycle client";
}

abbrev pub check_application_health_errors : Metric
check_application_health_errors = record {
  name = "vkec2_check_application_health_errors_total";
  help = "The total number of grpc errors during check application health";
}

abbrev pub watch_application_health_errors : Metric
watch_application_health_errors = record {
  name = "vkec2_watch_application_health_errors_total";
  help = "The total number of grpc errors during watch application health";
}

abbrev pub watch_application_health_stream_errors : Metric
watch_application_health_stream_errors = record {
  name = "vkec2_watch_application_health_stream_errors_total";
  help = "The total number of grpc errors during watch application health stream";
}

abbrev pub health_check_state_reset : Metric
health_check_state_reset = record {
  name = "vkec2_health_checks_reset_pod_status";
  help = "The total number of times pod unhealthy count is reset to zero";
}

-- the variables in their order, in which `promauto` registers them with the default registerer
abbrev pub declared : List Metric
declared =
    pods_launched ∷ ec2_launched ∷ pods_deleted ∷ grpc_connection_errors ∷ grpc_connection_timeouts
    ∷ ec2_launch_errors ∷ ec2_termination_errors ∷ ec2_terminated ∷ create_eni_errors
    ∷ delete_eni_errors ∷ describe_eni_errors ∷ eni_created ∷ eni_deleted ∷ eni_described
    ∷ describe_ec2_errors ∷ launch_application_errors ∷ terminate_application_errors
    ∷ get_aapplication_health_errors ∷ node_name_errors ∷ health_check_pod_cache_error
    ∷ health_check_grpc_error ∷ missing_health_check_response ∷ health_check_pods_deleted
    ∷ get_agent_identity_errors ∷ create_ca_cert_errors ∷ create_cert_signed_by_ca_cert_errors
    ∷ get_secret_errors ∷ create_secret_errors ∷ update_secret_errors ∷ secret_created
    ∷ secret_updated ∷ empty_ca_cert_cache ∷ empty_client_cert_cache ∷ empty_ca_cert_secret
    ∷ expired_ca_cert ∷ expired_client_cert ∷ health_check_state_unhealthy ∷ ec2_tag_creation_errors
    ∷ warm_ec2_termination_errors ∷ warm_ec2_launched ∷ warm_ec2_terminated ∷ warm_ec2_launch_errors
    ∷ grpc_app_client_errors ∷ check_application_health_errors ∷ watch_application_health_errors
    ∷ watch_application_health_stream_errors ∷ health_check_state_reset ∷ []

-- the counters that `init` registers with the registry of controller-runtime
abbrev pub registered : List Metric
registered =
    pods_launched ∷ pods_deleted ∷ grpc_connection_errors ∷ grpc_connection_timeouts
    ∷ ec2_launch_errors ∷ ec2_termination_errors ∷ create_eni_errors ∷ delete_eni_errors
    ∷ describe_eni_errors ∷ describe_ec2_errors ∷ launch_application_errors
    ∷ terminate_application_errors ∷ check_application_health_errors
    ∷ watch_application_health_errors ∷ watch_application_health_stream_errors ∷ ec2_terminated
    ∷ ec2_launched ∷ node_name_errors ∷ health_check_grpc_error ∷ health_check_state_reset
    ∷ missing_health_check_response ∷ get_agent_identity_errors ∷ create_ca_cert_errors
    ∷ create_cert_signed_by_ca_cert_errors ∷ get_secret_errors ∷ create_secret_errors ∷ eni_created
    ∷ eni_deleted ∷ eni_described ∷ grpc_app_client_errors ∷ warm_ec2_launch_errors
    ∷ warm_ec2_launched ∷ warm_ec2_terminated ∷ warm_ec2_termination_errors
    ∷ ec2_tag_creation_errors ∷ health_check_state_unhealthy ∷ []
