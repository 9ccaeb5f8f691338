-- ===== src/Runtime.antt =====
-- What the provider takes from packages outside the repository, as one parameter: the controller
-- runtime's catalog of images and its labels, the operator's constants and settings, the parsers of
-- YAML and of versions, and the conditions of the API packages.
use provider_altinity_clickh.Prelude.{ℕ, String, Bool, Option, List}
use provider_altinity_clickh.Prelude.Result.{Result}
use provider_altinity_clickh.Operator.{Settings}
use provider_altinity_clickh.Instance.{Instance, SchedulingPolicy, Condition}
use provider_altinity_clickh.Cluster.Secret.{Data}
use provider_altinity_clickh.Expose.{OperatorPorts}

-- The provider's spec as controller reads it: EffectiveVersionBundleName, ResolveVersionBundle with
-- the bundle's components, GetImageForVersion and GetDefaultImageForComponent.
pub record Catalog : Type 0 where
  pub bundle_name : Instance → String
  pub bundle : String → Result Data
  pub image_for_version : String → String → String
  pub default_image : String → String

-- A parsed version of go-version: its segments, and the text that it was parsed from.
pub record Version : Type 0 where
  pub segments : List ℕ
  pub original : String

-- `settings_names` unmarshals YAML into operator Settings and walks their names;
-- `has_condition` is meta.FindStatusCondition with a result that is not nil, and
-- `set_status_condition` meta.SetStatusCondition, which reports whether it changed anything.
pub record Runtime : Type 0 where
  pub provider_spec : Result Catalog
  pub pod_labels : Instance → String → Data
  pub spread_constraints : Option SchedulingPolicy → Data → List String
  pub operator_ports : OperatorPorts
  pub settings_names : String → Result (List String)
  pub has_certificate_file : Settings → Bool
  pub new_version : String → Option Version
  pub set_status_condition : List Condition → Condition → List Condition × Bool
  pub has_condition : List Condition → String → Bool
  pub condition_maintenance_pending : String
  pub reason_awaiting_approval : String
  pub reason_no_actions_pending : String
