-- ===== src/Operator.antt =====
-- The ClickHouseInstallation (CHI) and the ClickHouseKeeperInstallation (CHK) of the Altinity
-- operator, with the fields that the provider reads or writes. A pointer that may be nil is an
-- `Option`. A task ID is given when its HasValue holds.
use provider_altinity_clickh.Prelude.{ℕ, String, Bool, Option, List}
use provider_altinity_clickh.Prelude.Int.{ℤ}

-- What the operator reports in status: status.status is `state`.
pub record OperatorStatus : Type 0 where
  pub state : String
  pub error : String
  pub task_ids_completed : List String
  pub hosts : ℕ
  pub hosts_completed : ℕ
  pub endpoint : String

-- The keys of a Secret that a setting or a cluster secret refers to.
pub record SecretRef : Type 0 where
  pub secret_name : String
  pub key : String

pub data Setting : Type 0 where
  scalar : String → Setting
  vector : List String → Setting
  source : SecretRef → Setting

-- What the provider does to a chiv1.Settings, in order: the operator's package interprets it.
pub data SettingOp : Type 0 where
  unmarshal : String → SettingOp
  set : String → Setting → SettingOp
  set_if_not_exists : String → Setting → SettingOp

abbrev pub Settings : Type 0
Settings = List SettingOp

pub record ZookeeperNode : Type 0 where
  pub host : String
  pub port : Option ℤ
  pub secure : Bool

pub record ZookeeperConfig : Type 0 where
  pub nodes : List ZookeeperNode
  pub keeper : Option String
  pub session_timeout_ms : ℕ
  pub operation_timeout_ms : ℕ

pub record OperatorCluster : Type 0 where
  pub name : String
  pub shards_count : ℕ
  pub replicas_count : ℕ
  pub pod_template : String
  pub data_volume_claim_template : String
  pub secure : Option Bool
  pub insecure : Option Bool
  pub secret : Option SecretRef

pub record Configuration : Type 0 where
  pub clusters : List OperatorCluster
  pub zookeeper : Option ZookeeperConfig
  pub users : Option Settings
  pub settings : Option Settings
  pub files : Option Settings

-- Limits and requests of CPU, in millicores, and memory, in bytes.
pub record EffectiveResources : Type 0 where
  pub cpu_limit : ℕ
  pub cpu_request : ℕ
  pub memory_limit : ℕ
  pub memory_request : ℕ

pub record Container : Type 0 where
  pub name : String
  pub image : String
  pub ports : List (String × ℕ)
  pub resources : EffectiveResources

-- Scheduling. What the provider only passes on (tolerations, affinity terms, spread constraints)
-- stands as its text.
pub record WeightedTerm : Type 0 where
  pub weight : ℕ
  pub match_labels : List (String × String)
  pub topology_key : String

pub data PodAntiAffinity : Type 0 where
  preferred : List WeightedTerm → PodAntiAffinity
  given : String → PodAntiAffinity

pub record Affinity : Type 0 where
  pub node_affinity : Option String
  pub pod_affinity : Option String
  pub pod_anti_affinity : Option PodAntiAffinity

pub record PodSpec : Type 0 where
  pub containers : List Container
  pub scheduler_name : String
  pub node_selector : List (String × String)
  pub tolerations : List String
  pub affinity : Option Affinity
  pub spread_constraints : List String

pub record PodTemplate : Type 0 where
  pub name : String
  pub labels : List (String × String)
  pub annotations : List (String × String)
  pub spec : PodSpec

-- Quantities of storage are counted in bytes.
pub record VolumeClaimTemplate : Type 0 where
  pub name : String
  pub access_modes : List String
  pub reclaim_policy : String
  pub storage_request : Option ℕ
  pub storage_class : Option String

pub record ServicePort : Type 0 where
  pub name : String
  pub port : ℕ
  pub target_port : String

pub record ServiceTemplate : Type 0 where
  pub name : String
  pub annotations : List (String × String)
  pub service_type : String
  pub cluster_ip : String
  pub source_ranges : List String
  pub ports : List ServicePort

pub record Templates : Type 0 where
  pub pod_templates : List PodTemplate
  pub volume_claim_templates : List VolumeClaimTemplate
  pub service_templates : List ServiceTemplate

-- spec.defaults holds the name of the root Service's template only.
pub record InstallationSpec : Type 0 where
  pub task_id : Option String
  pub configuration : Option Configuration
  pub templates : Option Templates
  pub default_service_template : Option String

pub record Chi : Type 0 where
  pub name : String
  pub spec : InstallationSpec
  pub status : Option OperatorStatus

pub record Chk : Type 0 where
  pub name : String
  pub spec : InstallationSpec
  pub status : Option OperatorStatus

-- The values of status.status that the provider tells apart.
abbrev pub status_completed : String
status_completed = "Completed"

abbrev pub status_aborted : String
status_aborted = "Aborted"

abbrev pub status_in_progress : String
status_in_progress = "InProgress"
