-- ===== src/Common.antt =====
-- internal/common/spec.go: the constants that the provider shares, each under its own name.
use provider_altinity_clickh.Prelude.{ℕ, String}

abbrev pub provider_name : String
provider_name = "altinity-clickhouse"

abbrev pub component_engine : String
component_engine = "engine"

abbrev pub component_type_click_house : String
component_type_click_house = "clickhouse"

abbrev pub component_keeper : String
component_keeper = "keeper"

abbrev pub keeper_default_cpu : String
keeper_default_cpu = "500m"

abbrev pub keeper_default_memory : String
keeper_default_memory = "1Gi"

abbrev pub keeper_default_storage : String
keeper_default_storage = "10Gi"

abbrev pub topology_standalone : String
topology_standalone = "standalone"

abbrev pub topology_replicated : String
topology_replicated = "replicated"

abbrev pub chi_cluster_name : String
chi_cluster_name = "clickhouse"

abbrev pub chk_cluster_name : String
chk_cluster_name = "keeper"

abbrev pub keeper_replicas : ℕ
keeper_replicas = 3

abbrev pub default_replicas_count : ℕ
default_replicas_count = 2

abbrev pub pod_template_name : String
pod_template_name = "default"

abbrev pub keeper_pod_template_name : String
keeper_pod_template_name = "keeper-default"

abbrev pub data_volume_claim_template_name : String
data_volume_claim_template_name = "data"

abbrev pub service_template_name : String
service_template_name = "svc-template"

abbrev pub keeper_data_volume_claim_template_name : String
keeper_data_volume_claim_template_name = "keeper-data"

abbrev pub metrics_port_name : String
metrics_port_name = "metrics"

abbrev pub metrics_port : ℕ
metrics_port = 9363

abbrev pub metrics_path : String
metrics_path = "/metrics"

abbrev pub label_chi_name : String
label_chi_name = "clickhouse.altinity.com/chi"

abbrev pub label_chk_name : String
label_chk_name = "clickhouse-keeper.altinity.com/chk"

abbrev pub label_chi_reclaim_policy : String
label_chi_reclaim_policy = "clickhouse.altinity.com/reclaimPolicy"

abbrev pub label_chk_reclaim_policy : String
label_chk_reclaim_policy = "clickhouse-keeper.altinity.com/reclaimPolicy"

abbrev pub storage_reclaim_policy_retain : String
storage_reclaim_policy_retain = "Retain"

abbrev pub storage_reclaim_policy_delete : String
storage_reclaim_policy_delete = "Delete"

abbrev pub anti_affinity_hostname_weight : ℕ
anti_affinity_hostname_weight = 100

abbrev pub anti_affinity_zone_weight : ℕ
anti_affinity_zone_weight = 50

abbrev pub pod_monitor_enabled : String
pod_monitor_enabled = "enabled"

abbrev pub pod_monitor_disabled : String
pod_monitor_disabled = "disabled"

abbrev pub tls_enabled : String
tls_enabled = "enabled"

abbrev pub tls_disabled : String
tls_disabled = "disabled"

abbrev pub tls_mode_required : String
tls_mode_required = "required"

abbrev pub tls_mode_optional : String
tls_mode_optional = "optional"

abbrev pub app_user_name : String
app_user_name = "admin"

abbrev pub rollout_state_suffix : String
rollout_state_suffix = "-provider-state"

abbrev pub credentials_secret_suffix : String
credentials_secret_suffix = "-credentials"

abbrev pub credentials_key_username : String
credentials_key_username = "username"

abbrev pub credentials_key_password : String
credentials_key_password = "password"

abbrev pub credentials_key_password_sha256 : String
credentials_key_password_sha256 = "password_sha256_hex"

abbrev pub app_user_password_bytes : ℕ
app_user_password_bytes = 24

abbrev pub credentials_key_default_password : String
credentials_key_default_password = "default_password"

abbrev pub credentials_key_default_password_sha256 : String
credentials_key_default_password_sha256 = "default_password_sha256_hex"

abbrev pub credentials_key_interserver_password : String
credentials_key_interserver_password = "interserver_password"

abbrev pub credentials_key_cluster_secret : String
credentials_key_cluster_secret = "cluster_secret"

abbrev pub credentials_key_revision : String
credentials_key_revision = "revision"

abbrev pub credentials_key_user_revision : String
credentials_key_user_revision = "user_revision"

abbrev pub credentials_key_applied_username : String
credentials_key_applied_username = "applied_username"

abbrev pub interserver_user : String
interserver_user = "interserver"

abbrev pub min_password_length : ℕ
min_password_length = 12

abbrev pub annotation_credentials_revision : String
annotation_credentials_revision = "openeverest.io/credentials-revision"

abbrev pub http_port : ℕ
http_port = 8123

abbrev pub https_port : ℕ
https_port = 8443

abbrev pub tcp_secure_port : ℕ
tcp_secure_port = 9440

abbrev pub tcp_port : ℕ
tcp_port = 9000

abbrev pub interserver_http_port : ℕ
interserver_http_port = 9009

abbrev pub interserver_https_port : ℕ
interserver_https_port = 9010

abbrev pub keeper_port : ℕ
keeper_port = 2181

abbrev pub keeper_secure_port : ℕ
keeper_secure_port = 2281

abbrev pub keeper_raft_port : ℕ
keeper_raft_port = 9444

abbrev pub plaintext_policy_suffix : String
plaintext_policy_suffix = "-plaintext"

abbrev pub keeper_policy_suffix : String
keeper_policy_suffix = "-keeper-access"

abbrev pub connection_key_ca_cert : String
connection_key_ca_cert = "ca.crt"

abbrev pub connection_key_internal_host : String
connection_key_internal_host = "internal_host"

abbrev pub connection_key_http_port : String
connection_key_http_port = "http_port"

abbrev pub connection_key_https_port : String
connection_key_https_port = "https_port"

abbrev pub connection_key_native_port : String
connection_key_native_port = "native_port"

abbrev pub connection_key_native_secure_port : String
connection_key_native_secure_port = "native_secure_port"

abbrev pub connection_key_node_port_suffix : String
connection_key_node_port_suffix = "_node_port"

abbrev pub env_operator_namespace : String
env_operator_namespace = "CLICKHOUSE_OPERATOR_NAMESPACE"

abbrev pub env_operator_pod_labels : String
env_operator_pod_labels = "CLICKHOUSE_OPERATOR_POD_LABELS"

abbrev pub default_operator_pod_labels : String
default_operator_pod_labels = "app.kubernetes.io/name=operator"

abbrev pub self_signed_issuer_suffix : String
self_signed_issuer_suffix = "-selfsign"

abbrev pub ca_issuer_suffix : String
ca_issuer_suffix = "-ca"

abbrev pub ca_cert_secret_suffix : String
ca_cert_secret_suffix = "-ca-tls"

abbrev pub server_cert_suffix : String
server_cert_suffix = "-server"

abbrev pub server_cert_secret_suffix : String
server_cert_secret_suffix = "-server-tls"
