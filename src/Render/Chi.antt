-- ===== src/Render/Chi.antt =====
-- internal/provider/provider.go: the ClickHouseInstallation that is rendered for an Instance.
use provider_altinity_clickh.Prelude.{ℕ, String, not, none, some, [], ◌∷◌, if◌then◌else◌, ltb}
use provider_altinity_clickh.Prelude.Int.{pos, ◌==ℤ◌}
use provider_altinity_clickh.Prelude.Text.{is_empty}
use provider_altinity_clickh.Common.{
  component_engine, chi_cluster_name, pod_template_name, data_volume_claim_template_name,
  metrics_port_name, metrics_port, keeper_secure_port,
}
use provider_altinity_clickh.Operator
use provider_altinity_clickh.Operator.{
  Settings, Container, PodSpec, PodTemplate, VolumeClaimTemplate, Templates, OperatorCluster,
  Configuration, InstallationSpec,
}
use provider_altinity_clickh.Instance.{Instance, engine_of}
use provider_altinity_clickh.Cluster.{Exec, pure, lift, ◌>>=◌}
use provider_altinity_clickh.Cluster.Secret.{Data}
use provider_altinity_clickh.Runtime.{Runtime}
use provider_altinity_clickh.Rollout.{credentials_secret_name}
use provider_altinity_clickh.Sizing.{resolve_resources, resolve_storage, storage_reclaim_policy}
use provider_altinity_clickh.Tls.{tls_mode, server_secret_name}
use provider_altinity_clickh.Expose.{configure_expose}
use provider_altinity_clickh.Scheduling.{apply_scheduling_policy}
use provider_altinity_clickh.Image.{resolve_image}
use provider_altinity_clickh.Keeper.{KeeperWiring}
use provider_altinity_clickh.Keeper.Live.{plan_keeper_wiring}
use provider_altinity_clickh.Keeper.Zookeeper.{keeper_zookeeper}
use provider_altinity_clickh.Render.{
  resolve_engine_settings, credentials_for_chi, build_user_settings, apply_interserver_auth,
  build_tls_files, apply_tls_to_chi_spec,
}

-- A pod spec before the scheduling policy.
abbrev pub plain_pod : Container → PodSpec
plain_pod container = record {
  containers = container ∷ [];
  scheduler_name = "";
  node_selector = [];
  tolerations = [];
  affinity = none;
  spread_constraints = [];
}

unfoldable pub clickhouse_cluster : ℕ → OperatorCluster
clickhouse_cluster replicas_count = record {
  name = chi_cluster_name;
  shards_count = 1;
  replicas_count = replicas_count;
  pod_template = pod_template_name;
  data_volume_claim_template = data_volume_claim_template_name;
  secure = none;
  insecure = none;
  secret = none;
}

unfoldable pub clickhouse_container : Instance → String → Container
clickhouse_container instance_ image = record {
  name = "clickhouse";
  image = image;
  ports = (metrics_port_name, metrics_port) ∷ [];
  resources = resolve_resources (engine_of instance_);
}

unfoldable pub chi_templates : Runtime → Instance → String → Data → Templates
unfolding clickhouse_container
chi_templates rt instance_ image annotations =
    let engine = engine_of instance_ in
    let pod_labels = rt.pod_labels instance_ component_engine in
    record {
      pod_templates =
          record {
            name = pod_template_name;
            labels = pod_labels;
            annotations = annotations;
            spec =
                apply_scheduling_policy rt (plain_pod (clickhouse_container instance_ image))
                  engine.scheduling_policy pod_labels;
          }
          ∷ [];
      volume_claim_templates =
          record {
            name = data_volume_claim_template_name;
            access_modes = "ReadWriteOnce" ∷ [];
            reclaim_policy = storage_reclaim_policy instance_;
            storage_request = some (resolve_storage engine).0;
            storage_class = (resolve_storage engine).1;
          }
          ∷ [];
      service_templates = [];
    }

unfoldable pub plain_configuration : String → String → Settings → OperatorCluster → Configuration
plain_configuration secret_name username settings cluster = record {
  clusters = cluster ∷ [];
  zookeeper = none;
  users = some (build_user_settings secret_name username);
  settings = some settings;
  files = none;
}

-- With TLS, the certificate and the secure ports; without, the CA as long as ClickHouse is on
-- Keeper's secure port.
unfoldable pub tls_configuration :
    Instance → KeeperWiring → Settings → OperatorCluster → Configuration → Configuration
tls_configuration instance_ wiring settings cluster configuration =
    if not (is_empty (tls_mode instance_))
    then apply_tls_to_chi_spec configuration settings cluster instance_.name
    else if wiring.port ==ℤ pos keeper_secure_port
    then record configuration { files = some (build_tls_files (server_secret_name instance_.name)) }
    else configuration

unfoldable pub with_keeper : Instance → ℕ → KeeperWiring → Configuration → Configuration
with_keeper instance_ replicas_count wiring configuration =
    if ltb 1 replicas_count
    then record configuration { zookeeper = some (keeper_zookeeper instance_ wiring.port) }
    else configuration

unfoldable pub chi_configuration : Instance → ℕ → KeeperWiring → Settings → String → Configuration
unfolding clickhouse_cluster plain_configuration tls_configuration with_keeper
chi_configuration instance_ replicas_count wiring settings username =
    let secret_name = credentials_secret_name instance_.name in
    let (settings', cluster) =
      apply_interserver_auth settings (clickhouse_cluster replicas_count) secret_name in
    with_keeper instance_ replicas_count wiring (
      tls_configuration instance_ wiring settings' cluster
        (plain_configuration secret_name username settings' cluster))

unfoldable pub render_chi :
    Runtime → Instance → ℕ → KeeperWiring → String → Settings → String × Data → Operator.Chi
unfolding chi_templates
render_chi rt instance_ replicas_count wiring image settings (username, annotations) = record {
  name = instance_.name;
  spec =
      configure_expose rt.operator_ports
        (record {
          task_id = none;
          configuration =
              some (chi_configuration instance_ replicas_count wiring settings username);
          templates = some (chi_templates rt instance_ image annotations);
          default_service_template = none;
        })
        (engine_of instance_).service (tls_mode instance_);
  status = none;
}

unfoldable pub build_chi_wired : Runtime → Instance → ℕ → KeeperWiring → Exec Operator.Chi
build_chi_wired rt instance_ replicas_count wiring = do
  image ← lift (resolve_image rt instance_ component_engine (engine_of instance_))
  settings ← lift (resolve_engine_settings rt (engine_of instance_))
  credentials ← credentials_for_chi (credentials_secret_name instance_.name)
  pure (render_chi rt instance_ replicas_count wiring image settings credentials)

unfoldable pub build_chi : Runtime → Instance → ℕ → Exec Operator.Chi
build_chi rt instance_ replicas_count = do
  plan ← plan_keeper_wiring instance_
  build_chi_wired rt instance_ replicas_count plan.0
