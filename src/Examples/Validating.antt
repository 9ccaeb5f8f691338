-- ===== src/Examples/Validating.antt =====
-- The validation of an Instance, before and after it is deployed.
use provider_altinity_clickh.Prelude.{
  arith, ◌≡◌, refl, ◌↔◌, ◌⊎◌, String, true, none, some, List, [], ◌∷◌,
}
use provider_altinity_clickh.Prelude.Text.{trim_space, equal_fold}
use provider_altinity_clickh.Prelude.Result.{ok}
use provider_altinity_clickh.Operator.{VolumeClaimTemplate}
use provider_altinity_clickh.Instance.{ComponentSpec, engine_of}
use provider_altinity_clickh.Cluster.{Api, Pvc, found, missing}
use provider_altinity_clickh.Cluster.Effects.{count}
use provider_altinity_clickh.Image.{resolve_image}
use provider_altinity_clickh.Render.Chi.{render_chi}
use provider_altinity_clickh.Render.Switching.{live_chi, live_chk}
use provider_altinity_clickh.Render.Chk.{
  render_chk, resolve_keeper_storage, keeper_storage_class, undeclared_class, live_class,
}
use provider_altinity_clickh.Validation.Rendered.{DeployedChi, validate-rendered}
use provider_altinity_clickh.Validation.Rendered.Keeper.{DeployedChk}
use provider_altinity_clickh.Validation.{validate, validate_credentials}
use provider_altinity_clickh.Validation.Spec.{
  validate_spec, validate_limits, validate_requests_within_limits, is_reclaim_policy, is_tls_mode,
  validate_keeper, is_service_type,
}
use provider_altinity_clickh.Sizing.{resolve_resources, keeper_storage_size, resolve_storage}
use provider_altinity_clickh.Credentials.{validate_user_secret_data, is_username, is_reserved}
use provider_altinity_clickh.Cluster.Secret.{get, lookup, value_or_empty}
use provider_altinity_clickh.Validation.Version.{validate_version}
use provider_altinity_clickh.Validation.Version.Order.{Downgrade, validate_version_iff}
use provider_altinity_clickh.Validation.Settings.{
  NoneManaged, validate_configuration, validate_configuration_iff,
}
use provider_altinity_clickh.Validation.Volumes.{validate_volumes}
use provider_altinity_clickh.Validation.Volumes.Growth.{Fits, validate_volumes_iff}
use provider_altinity_clickh.Validation.Deployed.{
  validate_keeper_transitions, validate_live_keeper, validate_transitions, validate_live_clickhouse,
}
use provider_altinity_clickh.Validation.Accepted.{Accepted, validate-Accepted}
use provider_altinity_clickh.Validation.ReadOnly.{is_change, validate-changes_nothing}
use provider_altinity_clickh.Examples.Data.{shop, completed, cluster}
use provider_altinity_clickh.Examples.Secrets.{stored}
use provider_altinity_clickh.Examples.Environment.{runtime, newer_version}
use provider_altinity_clickh.Examples.Rendering.{secure_wiring, app}

validate_version_iff_example :
    (validate_version runtime "ClickHouse" (some newer_version) (ok "clickhouse:25.3") ≡ ok tt)
    ↔ ¬ Downgrade runtime (some newer_version) (ok "clickhouse:25.3")
validate_version_iff_example =
    validate_version_iff runtime "ClickHouse" (some newer_version) (ok "clickhouse:25.3")

validate_configuration_iff_example :
    (validate_configuration runtime "max_connections: 10" ≡ ok tt) ↔ (
      (trim_space "max_connections: 10" ≡ "")
      ⊎ ((names : List String) × (runtime.settings_names (trim_space "max_connections: 10")
            ≡ ok names)
          × NoneManaged names))
validate_configuration_iff_example = validate_configuration_iff runtime "max_connections: 10"

abbrev claim : Pvc
claim = record { name = "data-0"; labels = []; storage_class = some "fast" }

abbrev claimed : Api
claimed = record (cluster stored) { list_pvcs = λ h key value. ok (claim ∷ []) }

abbrev deployed_volume : VolumeClaimTemplate
deployed_volume = record {
  name = "data";
  access_modes = [];
  reclaim_policy = "Retain";
  storage_request = some 10;
  storage_class = some "fast";
}

validate_volumes_iff_example :
    ((validate_volumes "engine" "chi" "shop" deployed_volume (20, some "fast") claimed []).0
      ≡ ok tt)
    ↔ (Fits (λ name. found (some true)) (claim ∷ []) (some 10) 20
        × (deployed_volume.storage_class ≡ some "fast"))
validate_volumes_iff_example =
    validate_volumes_iff "engine" claimed (λ name. found (some true)) "chi" "shop" [] (claim ∷ [])
      deployed_volume 20 (some "fast") (λ h name. refl) refl

validate-changes_nothing_example :
    count is_change (validate runtime shop (cluster stored) []).1 ≡ count is_change []
validate-changes_nothing_example = validate-changes_nothing runtime shop (cluster stored) []

abbrev fresh : Api
fresh = record (cluster stored) { read_chi = λ h name. missing; read_chk = λ h name. missing }

validate-Accepted_example :
    (engine : ComponentSpec) × (shop.engine ≡ some engine) × Accepted shop engine
unfolding validate validate_spec validate_limits validate_requests_within_limits resolve_resources
    is_reclaim_policy is_tls_mode equal_fold validate_configuration trim_space validate_keeper
    validate_credentials validate_user_secret_data get lookup value_or_empty is_username is_reserved
    is_service_type validate_keeper_transitions validate_live_keeper validate_transitions
    validate_live_clickhouse
validate-Accepted_example =
    validate-Accepted runtime shop fresh [] (validate runtime shop fresh []).1 refl

-- The Instance as it is deployed: its own ClickHouse and Keeper are live.
abbrev as_rendered : Api
as_rendered = record (cluster stored) {
  read_chi = λ h name. found (
      live_chi none (some completed)
        (render_chi runtime shop 2 secure_wiring "clickhouse:25.8" [] app));
  read_chk = λ h name. found (
      live_chk none (some completed)
        (render_chk runtime shop secure_wiring "clickhouse:25.8" (10737418240, none)));
}

deployed_chi : DeployedChi runtime shop as_rendered
unfolding resolve_image
deployed_chi = record {
  replicas = 2;
  wiring = secure_wiring;
  image = "clickhouse:25.8";
  settings = [];
  credentials = app;
  task = none;
  status = some completed;
  single = λ standalone. ground arith;
  resolves = refl;
  live = λ g. refl;
}

deployed_chk : DeployedChk runtime shop as_rendered
unfolding resolve_image resolve_keeper_storage keeper_storage_class undeclared_class live_class
    keeper_storage_size resolve_storage
deployed_chk = record {
  wiring = secure_wiring;
  image = "clickhouse:25.8";
  storage = (10737418240, none);
  task = none;
  status = some completed;
  past = fresh;
  before = [];
  resolved = refl;
  resolves = refl;
  live = λ g. refl;
}

validate-rendered_example : (validate runtime shop as_rendered []).0 ≡ ok tt
unfolding validate_spec validate_limits validate_requests_within_limits resolve_resources
    is_reclaim_policy is_tls_mode equal_fold validate_configuration trim_space validate_keeper
    validate_credentials validate_user_secret_data get lookup value_or_empty is_username is_reserved
    is_service_type
validate-rendered_example =
    validate-rendered runtime shop (engine_of shop) as_rendered [] refl refl refl refl deployed_chi
      (λ replicated. deployed_chk) (λ standalone g. ground arith)
