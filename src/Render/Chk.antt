-- ===== src/Render/Chk.antt =====
-- internal/provider/provider.go: the ClickHouseKeeperInstallation that is rendered for an Instance,
-- and the storage of its volumes.
use provider_altinity_clickh.Prelude.{
  ℕ, String, true, false, Option, none, some, List, [], ◌∷◌, if◌then◌else◌,
}
use provider_altinity_clickh.Prelude.Text.{str_eq}
use provider_altinity_clickh.Prelude.Result.{wrapped, Result, ok, err}
use provider_altinity_clickh.Common.{
  component_keeper, chk_cluster_name, keeper_replicas, keeper_pod_template_name,
  keeper_data_volume_claim_template_name, label_chk_name,
}
use provider_altinity_clickh.Operator
use provider_altinity_clickh.Operator.{
  Container, PodTemplate, VolumeClaimTemplate, Templates, OperatorCluster, Configuration,
}
use provider_altinity_clickh.Instance.{Instance, ComponentSpec, Storage, engine_of, keeper_of}
use provider_altinity_clickh.Cluster.{
  Exec, Read, found, missing, failed, pure, lift, ◌>>=◌, get_chk,
}
use provider_altinity_clickh.Runtime.{Runtime}
use provider_altinity_clickh.Sizing.{
  resolve_keeper_resources, resolve_storage, keeper_storage_size, storage_reclaim_policy,
}
use provider_altinity_clickh.Tls.{keeper_cr_name, server_secret_name}
use provider_altinity_clickh.Scheduling.{apply_keeper_scheduling_policy}
use provider_altinity_clickh.Image.{resolve_image}
use provider_altinity_clickh.Keeper.{KeeperWiring}
use provider_altinity_clickh.Keeper.Live.{plan_keeper_wiring}
use provider_altinity_clickh.Render.{build_tls_files}
use provider_altinity_clickh.Render.Chi.{plain_pod}

-- The first template with the name.
unfoldable pub named_claim_template : String → List VolumeClaimTemplate → Option VolumeClaimTemplate
named_claim_template name [] = none
named_claim_template name (vct ∷ vcts) =
    if str_eq vct.name name then some vct else named_claim_template name vcts

unfoldable pub claim_template : String → Option Templates → Option VolumeClaimTemplate
unfolding named_claim_template
claim_template name none = none
claim_template name (some t) = named_claim_template name t.volume_claim_templates

unfoldable pub keeper_volume_claim_template : Operator.Chk → Option VolumeClaimTemplate
unfolding claim_template
keeper_volume_claim_template chk =
    claim_template keeper_data_volume_claim_template_name chk.spec.templates

unfoldable pub declared_class : Option Storage → Option String
declared_class none = none
declared_class (some storage) = storage.storage_class

class_of_template : Option String → Option VolumeClaimTemplate → Option String
class_of_template engine_class none = engine_class
class_of_template engine_class (some vct) = vct.storage_class

-- The class of the live CHK's volumes or, without one, the engine's.
unfoldable pub live_class : Option String → Read Operator.Chk → Result (Option String)
unfolding class_of_template
live_class engine_class (found chk) =
    ok (class_of_template engine_class (keeper_volume_claim_template chk))
live_class engine_class missing = ok engine_class
live_class engine_class (failed e) = err (wrapped "read current ClickHouseKeeperInstallation" e)

unfoldable pub undeclared_class : Instance → Exec (Option String)
undeclared_class instance_ = do
  answer ← get_chk (keeper_cr_name instance_.name)
  lift (live_class (resolve_storage (engine_of instance_)).1 answer)

unfoldable pub keeper_storage_class : Instance → Option String → Exec (Option String)
keeper_storage_class instance_ (some class) = pure (some class)
keeper_storage_class instance_ none = undeclared_class instance_

unfoldable pub resolve_keeper_storage : Instance → ComponentSpec → Exec (ℕ × Option String)
unfolding declared_class
resolve_keeper_storage instance_ keeper = do
  class ← keeper_storage_class instance_ (declared_class keeper.storage)
  pure (keeper_storage_size keeper, class)

keeper_container : Instance → String → Container
keeper_container instance_ image = record {
  name = "clickhouse-keeper";
  image = image;
  ports = [];
  resources = resolve_keeper_resources (keeper_of instance_);
}

unfoldable pub keeper_cluster : KeeperWiring → OperatorCluster
keeper_cluster wiring = record {
  name = chk_cluster_name;
  shards_count = 0;
  replicas_count = keeper_replicas;
  pod_template = keeper_pod_template_name;
  data_volume_claim_template = keeper_data_volume_claim_template_name;
  secure = if wiring.secure then some true else none;
  insecure = if wiring.plaintext then none else some false;
  secret = none;
}

unfoldable pub chk_configuration : Instance → KeeperWiring → Configuration
unfolding keeper_cluster
chk_configuration instance_ wiring = record {
  clusters = keeper_cluster wiring ∷ [];
  zookeeper = none;
  users = none;
  settings = none;
  files =
      if wiring.secure then some (build_tls_files (server_secret_name instance_.name)) else none;
}

chk_templates : Runtime → Instance → String → ℕ × Option String → Templates
unfolding keeper_container
chk_templates rt instance_ image (size, class) = record {
  pod_templates =
      record {
        name = keeper_pod_template_name;
        labels = rt.pod_labels instance_ component_keeper;
        annotations = [];
        spec =
            apply_keeper_scheduling_policy (plain_pod (keeper_container instance_ image))
              (engine_of instance_).scheduling_policy
              ((label_chk_name, keeper_cr_name instance_.name) ∷ []);
      }
      ∷ [];
  volume_claim_templates =
      record {
        name = keeper_data_volume_claim_template_name;
        access_modes = "ReadWriteOnce" ∷ [];
        reclaim_policy = storage_reclaim_policy instance_;
        storage_request = some size;
        storage_class = class;
      }
      ∷ [];
  service_templates = [];
}

unfoldable pub render_chk :
    Runtime → Instance → KeeperWiring → String → ℕ × Option String → Operator.Chk
unfolding chk_configuration chk_templates
render_chk rt instance_ wiring image storage = record {
  name = keeper_cr_name instance_.name;
  spec = record {
    task_id = none;
    configuration = some (chk_configuration instance_ wiring);
    templates = some (chk_templates rt instance_ image storage);
    default_service_template = none;
  };
  status = none;
}

unfoldable pub build_chk_wired : Runtime → Instance → KeeperWiring → Exec Operator.Chk
build_chk_wired rt instance_ wiring = do
  image ← lift (resolve_image rt instance_ component_keeper (keeper_of instance_))
  storage ← resolve_keeper_storage instance_ (keeper_of instance_)
  pure (render_chk rt instance_ wiring image storage)

unfoldable pub build_chk : Runtime → Instance → Exec Operator.Chk
build_chk rt instance_ = do plan ← plan_keeper_wiring instance_; build_chk_wired rt instance_ plan.0
