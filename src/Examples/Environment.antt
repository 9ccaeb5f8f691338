-- ===== src/Examples/Environment.antt =====
-- A concrete runtime and concrete surroundings of a Sync.
use provider_altinity_clickh.Prelude.{
  ◌≡◌, Bool, true, false, none, some, [], ◌∷◌, ◌++◌, any, arith, eq_refl, if◌then◌else◌,
}
use provider_altinity_clickh.Prelude.Text.{str_eq}
use provider_altinity_clickh.Prelude.Result.{ok}
use provider_altinity_clickh.Operator.{
  Setting, SettingOp, unmarshal, set, set_if_not_exists, Settings,
}
use provider_altinity_clickh.Runtime.{Runtime, Version}
use provider_altinity_clickh.Rollout.{Fingerprints}
use provider_altinity_clickh.Sync.{Surroundings}
use provider_altinity_clickh.Render.Certificate.{FindsSet}
use provider_altinity_clickh.Examples.Secrets.{crypto}
use provider_altinity_clickh.Examples.Exposure.{default_ports}

abbrev sets_certificate : SettingOp → Bool
sets_certificate (unmarshal yaml) = false
sets_certificate (set name value) = str_eq name "server.crt"
sets_certificate (set_if_not_exists name value) = false

abbrev pub has_certificate : Settings → Bool
has_certificate = any sets_certificate

pub has_certificate-finds :
    (before after : Settings) (value : Setting)
    → has_certificate (before ++ (set "server.crt" value ∷ after)) ≡ true
has_certificate-finds [] after value = let same = eq_refl "server.crt" in ground arith
has_certificate-finds (op ∷ before) after value =
    let rest = has_certificate-finds before after value in ground arith

abbrev pub older_version : Version
older_version = record { segments = 25 ∷ 3 ∷ []; original = "25.3" }

abbrev pub newer_version : Version
newer_version = record { segments = 25 ∷ 8 ∷ []; original = "25.8" }

abbrev pub runtime : Runtime
runtime = record {
  provider_spec = ok (record {
    bundle_name = λ instance_. "";
    bundle = λ name. ok [];
    image_for_version = λ name version. "";
    default_image = λ name. "clickhouse:25.8";
  });
  pod_labels = λ instance_ component. [];
  spread_constraints = λ policy labels. [];
  operator_ports = default_ports;
  settings_names = λ cfg. ok ("max_connections" ∷ []);
  has_certificate_file = has_certificate;
  new_version = λ tag. if str_eq tag "25.3" then some older_version else some newer_version;
  set_status_condition = λ conditions condition. (condition ∷ conditions, true);
  has_condition = λ conditions kind. false;
  condition_maintenance_pending = "MaintenancePending";
  reason_awaiting_approval = "AwaitingApproval";
  reason_no_actions_pending = "NoActionsPending";
}

pub runtime-FindsSet : FindsSet runtime.has_certificate_file
runtime-FindsSet = record { finds = has_certificate-finds }

abbrev pub prints : Fingerprints
prints = record {
  spec_hash = λ obj. ok "0123456789abcdef";
  inputs_hash = λ inputs. ok "in";
  digest = λ hashes. "77";
  release = some "v1";
}

abbrev pub surroundings : Surroundings
surroundings = record {
  runtime = runtime;
  prints = prints;
  crypto = crypto;
  urls = record {
    uri = λ scheme username password host path. host;
    join_host_port = λ host port. host;
  };
  environment = record {
    operator_namespace = "kube-system";
    operator_pod_labels = "";
    namespace_file = none;
    selector_labels = λ selector. ok (("app.kubernetes.io/name", "operator") ∷ []);
  };
  to_v2alpha1 = λ st. ("Provisioning", "Creating ClickHouse");
  maintenance_requested = λ h. false;
  pending_maintenance = λ h. [];
}
