-- ===== src/Examples/Data.antt =====
-- Concrete data: an Instance, a gate, and a cluster that answers every read in the same way.
use provider_altinity_clickh.Prelude.{true, none, some, [], ◌∷◌}
use provider_altinity_clickh.Prelude.Result.{ok}
use provider_altinity_clickh.Common.{tls_mode_required}
use provider_altinity_clickh.Operator.{Chi, Chk, InstallationSpec, OperatorStatus, Templates}
use provider_altinity_clickh.Instance.{Instance, ComponentSpec, zero_component, zero_parameters}
use provider_altinity_clickh.Cluster.{Api, found, missing}
use provider_altinity_clickh.Cluster.Secret.{Data}
use provider_altinity_clickh.Rollout.{RolloutGate}

abbrev engine : ComponentSpec
engine = record zero_component {
  parameters = some (record zero_parameters {
    tls = some (record { enabled = "enabled"; mode = tls_mode_required; issuer_ref = none });
  });
}

abbrev pub shop : Instance
shop = record {
  name = "shop";
  namespace = "prod";
  topology = "replicated";
  version = "25.8";
  engine = some engine;
  keeper = none;
  user_secret_ref = none;
  generation = 1;
  status = record { phase = ""; message = ""; pending_maintenance = []; conditions = [] };
}

abbrev pub empty_templates : Templates
empty_templates = record { pod_templates = []; volume_claim_templates = []; service_templates = [] }

abbrev pub plain_spec : InstallationSpec
plain_spec = record {
  task_id = some "openeverest-1";
  configuration = none;
  templates = some empty_templates;
  default_service_template = none;
}

abbrev pub completed : OperatorStatus
completed = record {
  state = "Completed";
  error = "";
  task_ids_completed = "openeverest-1" ∷ [];
  hosts = 3;
  hosts_completed = 3;
  endpoint = "clickhouse-shop.prod.svc.cluster.local";
}

abbrev pub shop_chi : Chi
shop_chi = record { name = "shop"; spec = plain_spec; status = some completed }

abbrev pub shop_chk : Chk
shop_chk = record { name = "shop-keeper"; spec = plain_spec; status = some completed }

-- A cluster whose Secrets all hold `data_`, and where every call succeeds.
abbrev pub cluster : Data → Api
cluster data_ = record {
  read_chi = λ h name. found shop_chi;
  read_chk = λ h name. found shop_chk;
  read_secret = λ h name. found data_;
  read_service = λ h name. missing;
  read_instance = λ h name. found shop;
  read_storage_class = λ h name. found (some true);
  read_other = λ h kind name. missing;
  list_pvcs = λ h key value. ok [];
  list_pods = λ h key value. ok [];
  apply = λ h object. ok tt;
  delete = λ h kind name. ok tt;
  patch = λ h kind name indices policy. ok tt;
  label = λ h name key value. ok tt;
  request_maintenance = λ h token. true;
}

abbrev pub shop_gate : RolloutGate
shop_gate = record {
  recorded = ("chi.spec", "0123456789abcdef") ∷ ("chi.inputs-v3", "in") ∷ [];
  inputs = "in";
  token = "provider-v1-77";
  approved = none;
}
