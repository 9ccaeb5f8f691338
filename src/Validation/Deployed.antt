-- ===== src/Validation/Deployed.antt =====
-- internal/provider/validate.go, transitions: what the deployed ClickHouse and Keeper can take.
use provider_altinity_clickh.Prelude.{
  Bool, true, false, not, Option, none, some, if◌then◌else◌, is_some,
}
use provider_altinity_clickh.Prelude.Result.{failure, wrapped, Result, ok, err, reject_if}
use provider_altinity_clickh.Common.{
  component_engine, component_keeper, label_chi_name, label_chk_name, pod_template_name,
  keeper_pod_template_name, data_volume_claim_template_name,
}
use provider_altinity_clickh.Operator.{VolumeClaimTemplate, Configuration, Chi, Chk}
use provider_altinity_clickh.Instance.{Instance, ComponentSpec, keeper_of, is_replicated_topology}
use provider_altinity_clickh.Cluster.{
  ◌>>=◌, ◌>>◌, Read, found, missing, failed, Exec, pure, lift, get_chi, get_chk,
}
use provider_altinity_clickh.Runtime.{Runtime}
use provider_altinity_clickh.Sizing.{resolve_storage}
use provider_altinity_clickh.Tls.{keeper_cr_name}
use provider_altinity_clickh.Image.{resolve_image}
use provider_altinity_clickh.Render.Chk.{
  claim_template, keeper_volume_claim_template, resolve_keeper_storage,
}
use provider_altinity_clickh.Validation.Version.{image_version, current_image, validate_version}
use provider_altinity_clickh.Validation.Volumes.{validate_volumes}

-- The Keeper that is deployed
unfoldable pub validate_keeper_volumes : Instance → Option VolumeClaimTemplate → Exec (Unit {0})
validate_keeper_volumes instance_ none = pure tt
validate_keeper_volumes instance_ (some current) = do
  storage ← resolve_keeper_storage instance_ (keeper_of instance_)
  validate_volumes component_keeper label_chk_name (keeper_cr_name instance_.name) current storage

unfoldable pub validate_live_keeper : Runtime → Instance → Read Chk → Exec (Unit {0})
unfolding validate_keeper_volumes
validate_live_keeper rt instance_ missing = pure tt
validate_live_keeper rt instance_ (failed e) =
    lift (err (wrapped "read current ClickHouseKeeperInstallation" e))
validate_live_keeper rt instance_ (found chk) = do
  validate_keeper_volumes instance_ (keeper_volume_claim_template chk)
  lift (
      validate_version rt "keeper"
        (image_version rt
          (current_image keeper_pod_template_name "clickhouse-keeper" chk.spec.templates))
        (resolve_image rt instance_ component_keeper (keeper_of instance_)))

-- validateKeeperTransitions
unfoldable pub validate_keeper_transitions : Runtime → Instance → Exec (Unit {0})
validate_keeper_transitions rt instance_ =
    if not (is_replicated_topology instance_) then pure tt else do
      answer ← get_chk (keeper_cr_name instance_.name)
      validate_live_keeper rt instance_ answer

-- isReplicated
unfoldable pub has_zookeeper : Option Configuration → Bool
has_zookeeper none = false
has_zookeeper (some configuration) = is_some configuration.zookeeper

unfoldable pub exists_result : Read Chk → Result Bool
exists_result (found chk) = ok true
exists_result missing = ok false
exists_result (failed e) = err (wrapped "read current ClickHouseKeeperInstallation" e)

unfoldable pub is_replicated : Instance → Chi → Exec Bool
unfolding has_zookeeper exists_result
is_replicated instance_ chi =
    if has_zookeeper chi.spec.configuration
    then pure true
    else do answer ← get_chk (keeper_cr_name instance_.name); lift (exists_result answer)

unfoldable pub validate_topology : Instance → Chi → Exec (Unit {0})
validate_topology instance_ chi = if is_replicated_topology instance_ then pure tt else do
  replicated ← is_replicated instance_ chi
  lift (
      reject_if replicated (failure "the topology cannot be changed from replicated to standalone"))

-- validateStorageTransition
unfoldable pub validate_storage_transition :
    Instance → ComponentSpec → Option VolumeClaimTemplate → Exec (Unit {0})
validate_storage_transition instance_ engine none = pure tt
validate_storage_transition instance_ engine (some current) =
    validate_volumes component_engine label_chi_name instance_.name current (resolve_storage engine)

unfoldable pub validate_live_clickhouse :
    Runtime → Instance → ComponentSpec → Read Chi → Exec (Unit {0})
unfolding validate_topology
validate_live_clickhouse rt instance_ engine missing = pure tt
validate_live_clickhouse rt instance_ engine (failed e) =
    lift (err (wrapped "read current ClickHouseInstallation" e))
validate_live_clickhouse rt instance_ engine (found chi) = do
  validate_topology instance_ chi
  validate_storage_transition instance_ engine
      (claim_template data_volume_claim_template_name chi.spec.templates)
  lift (
      validate_version rt "ClickHouse"
        (image_version rt (current_image pod_template_name "clickhouse" chi.spec.templates))
        (resolve_image rt instance_ component_engine engine))

-- validateTransitions
unfoldable pub validate_transitions : Runtime → Instance → ComponentSpec → Exec (Unit {0})
validate_transitions rt instance_ engine = do
  answer ← get_chi instance_.name
  validate_live_clickhouse rt instance_ engine answer
