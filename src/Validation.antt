-- ===== src/Validation.antt =====
-- internal/provider/validate.go: which Instances are accepted, by their spec and by what is deployed
-- for them.
pub mod Version
pub mod Settings
pub mod Volumes
pub mod Spec
pub mod Deployed
pub mod Accepted
pub mod ReadOnly
pub mod Unchanged
pub mod Rendered
use provider_altinity_clickh.Prelude.{String, not, Option, none, some}
use provider_altinity_clickh.Prelude.Text.{◌<>◌}
use provider_altinity_clickh.Prelude.Result
use provider_altinity_clickh.Prelude.Result.{failure, Result, ok, err, reject_if}
use provider_altinity_clickh.Instance.{Instance, ComponentSpec}
use provider_altinity_clickh.Cluster.{
  Exec, pure, lift, ◌>>=◌, ◌>>◌, wrap_error, optional_result, get_secret,
}
use provider_altinity_clickh.Cluster.Secret.{Data}
use provider_altinity_clickh.Runtime.{Runtime}
use provider_altinity_clickh.Rollout.{credentials_secret_name}
use provider_altinity_clickh.Credentials.{validate_user_secret_data}
use Spec.{validate_spec, is_service_type}
use Deployed.{validate_keeper_transitions, validate_transitions}

-- The credentials that a Secret may have.
validate_secret : String → Option Data → Result (Unit {0})
validate_secret what none = ok tt
validate_secret what (some data_) = wrap_error what (validate_user_secret_data data_)

unfoldable pub validate_secret_named : String → String → Exec (Unit {0})
unfolding validate_secret
validate_secret_named what name = do
  answer ← get_secret name
  data_ ← lift (optional_result name answer)
  lift (validate_secret (what <> " " <> name) data_)

unfoldable pub validate_reference : Option String → Exec (Unit {0})
unfolding validate_secret_named
validate_reference none = pure tt
validate_reference (some name) = validate_secret_named "spec.userSecretRef secret" name

-- validateCredentials
unfoldable pub validate_credentials : Instance → Exec (Unit {0})
unfolding validate_reference validate_secret_named
validate_credentials instance_ = do
  validate_reference instance_.user_secret_ref
  validate_secret_named "credentials secret" (credentials_secret_name instance_.name)

unfoldable pub validate_engine : Runtime → Instance → ComponentSpec → Exec (Unit {0})
validate_engine rt instance_ engine = do
  lift (validate_spec rt instance_ engine)
  validate_credentials instance_
  lift (
      reject_if (not (is_service_type engine.service))
        (failure "engine service.serviceType must be one of ClusterIP, LoadBalancer or NodePort"))
  validate_keeper_transitions rt instance_
  validate_transitions rt instance_ engine

unfoldable pub validate_declared : Runtime → Instance → Option ComponentSpec → Exec (Unit {0})
unfolding validate_engine
validate_declared rt instance_ none = lift (err (failure "engine component is required"))
validate_declared rt instance_ (some engine) = validate_engine rt instance_ engine

-- (p *Provider) Validate
unfoldable pub validate : Runtime → Instance → Exec (Unit {0})
unfolding validate_declared
validate rt instance_ = validate_declared rt instance_ instance_.engine
