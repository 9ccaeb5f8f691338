-- ===== src/Instance.antt =====
-- The Instance that the provider is handed, with the fields it reads, and the parameter types of
-- definition/components/types.go. Quantities are natural numbers of one unit for each resource,
-- 0 being what IsZero holds of.
use provider_altinity_clickh.Prelude.{ℕ, String, Option, none, some, List, Bool}
use provider_altinity_clickh.Prelude.Int.{ℤ}
use provider_altinity_clickh.Prelude.Text.{str_eq}
use provider_altinity_clickh.Common
use provider_altinity_clickh.Operator.{Affinity}

pub record IssuerRef : Type 0 where
  pub name : String
  pub kind : String
  pub group : String

pub record TlsParameters : Type 0 where
  pub enabled : String
  pub mode : String
  pub issuer_ref : Option IssuerRef

pub record ClickHouseParameters : Type 0 where
  pub configuration : String
  pub pod_monitor : String
  pub tls : Option TlsParameters
  pub storage_reclaim_policy : String

-- The requests and limits that a component declares; a missing key is `none`.
pub record ResourceRequirements : Type 0 where
  pub cpu_limit : Option ℕ
  pub memory_limit : Option ℕ
  pub cpu_request : Option ℕ
  pub memory_request : Option ℕ

pub record Storage : Type 0 where
  pub size : ℕ
  pub storage_class : Option String

pub record Service : Type 0 where
  pub service_type : String
  pub annotations : List (String × String)
  -- LoadBalancerService.SourceRanges, normalized by the API package
  pub load_balancer_source_ranges : Option (List String)

-- A policy of the engine's pods; `none` is a nil pointer.
pub record SchedulingPolicy : Type 0 where
  pub scheduler_name : String
  pub node_selector : List (String × String)
  pub tolerations : List String
  pub affinity : Option Affinity

-- `parameters` is what TryDecodeComponentParameters decodes, `none` when it returns false.
pub record ComponentSpec : Type 0 where
  pub image : String
  pub version : String
  pub replicas : Option ℤ
  pub resources : Option ResourceRequirements
  pub storage : Option Storage
  pub service : Option Service
  pub scheduling_policy : Option SchedulingPolicy
  pub parameters : Option ClickHouseParameters

-- What the provider reads and writes of the Instance's status.
pub record Condition : Type 0 where
  pub kind : String
  pub status : String
  pub reason : String
  pub message : String
  pub observed_generation : ℕ

pub record InstanceStatus : Type 0 where
  pub phase : String
  pub message : String
  pub pending_maintenance : List String
  pub conditions : List Condition

-- `components` has the engine and the keeper; `none` is a key that the map lacks.
pub record Instance : Type 0 where
  pub name : String
  pub namespace : String
  pub topology : String
  pub version : String
  pub engine : Option ComponentSpec
  pub keeper : Option ComponentSpec
  pub user_secret_ref : Option String
  pub generation : ℕ
  pub status : InstanceStatus

-- The zero values that Go gives for a missing key and for parameters that do not decode.
abbrev pub zero_parameters : ClickHouseParameters
zero_parameters = record {
  configuration = "";
  pod_monitor = "";
  tls = none;
  storage_reclaim_policy = "";
}

abbrev pub zero_component : ComponentSpec
zero_component = record {
  image = "";
  version = "";
  replicas = none;
  resources = none;
  storage = none;
  service = none;
  scheduling_policy = none;
  parameters = none;
}

abbrev pub get_or {ℓ} : {A : Type ℓ} → Option A → A → A
get_or none d = d
get_or (some a) d = a

abbrev pub engine_of : Instance → ComponentSpec
engine_of instance_ = get_or instance_.engine zero_component

abbrev pub keeper_of : Instance → ComponentSpec
keeper_of instance_ = get_or instance_.keeper zero_component

abbrev pub parameters_of : ComponentSpec → ClickHouseParameters
parameters_of component = get_or component.parameters zero_parameters

abbrev pub is_replicated_topology : Instance → Bool
is_replicated_topology instance_ = str_eq instance_.topology Common.topology_replicated
