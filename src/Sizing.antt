-- ===== src/Sizing.antt =====
-- internal/provider/provider.go, helpers: what a component asks for, with the provider's defaults.
-- CPU is counted in millicores, memory and storage in bytes.
pub mod Requirements
use provider_altinity_clickh.Prelude.{
  ℕ, ◌*◌, String, Bool, true, false, not, ◌&&◌, ◌||◌, Option, none, some, if◌then◌else◌, ltb, leb,
  ◌==◌,
}
use provider_altinity_clickh.Prelude.Int.{ℤ, pos, negsuc}
use provider_altinity_clickh.Prelude.Text.{equal_fold}
use provider_altinity_clickh.Common.{
  default_replicas_count, storage_reclaim_policy_delete, storage_reclaim_policy_retain,
}
use provider_altinity_clickh.Operator.{EffectiveResources}
use provider_altinity_clickh.Instance.{
  Instance, ComponentSpec, ResourceRequirements, Storage, engine_of, parameters_of,
}

abbrev pub gibibyte : ℕ
gibibyte = 1073741824

at_least_two : ℤ → ℕ
at_least_two (pos n) = if leb 2 n then n else default_replicas_count
at_least_two (negsuc n) = default_replicas_count

-- replicasCount; `none` is a nil pointer.
unfoldable pub replicas_count : Instance → ℕ
unfolding at_least_two
replicas_count instance_ = elim (engine_of instance_).replicas [
  | none ↦ default_replicas_count
  | some replicas ↦ at_least_two replicas
]

-- A declared quantity that is missing or zero counts as unset.
abbrev pub declared : Option ℕ → Option ℕ
declared none = none
declared (some q) = if q == 0 then none else some q

-- The limit and the request of one resource.
unfoldable pub effective_limit : ℕ → Option ℕ → Option ℕ → ℕ
effective_limit fallback (some limit) request = limit
effective_limit fallback none none = fallback
effective_limit fallback none (some request) = if ltb fallback request then request else fallback

unfoldable pub effective_request : ℕ → Option ℕ → ℕ
effective_request limit none = limit
effective_request limit (some request) = request

abbrev unset_requirements : ResourceRequirements
unset_requirements = record {
  cpu_limit = none;
  memory_limit = none;
  cpu_request = none;
  memory_request = none;
}

requirements_of : Option ResourceRequirements → ResourceRequirements
requirements_of none = unset_requirements
requirements_of (some r) = r

unfoldable pub resource_requirements : Option ResourceRequirements → ℕ → ℕ → EffectiveResources
unfolding effective_limit effective_request requirements_of
resource_requirements declared_ cpu memory =
    let r = requirements_of declared_ in
    let cpu_limit = effective_limit cpu (declared r.cpu_limit) (declared r.cpu_request) in
    let memory_limit =
      effective_limit memory (declared r.memory_limit) (declared r.memory_request) in
    record {
      cpu_limit = cpu_limit;
      cpu_request = effective_request cpu_limit (declared r.cpu_request);
      memory_limit = memory_limit;
      memory_request = effective_request memory_limit (declared r.memory_request);
    }

-- resolveResources and resolveKeeperResources: 1 CPU and 4Gi, 500m and 1Gi.
unfoldable pub resolve_resources : ComponentSpec → EffectiveResources
unfolding resource_requirements
resolve_resources engine = resource_requirements engine.resources 1000 (4 * gibibyte)

unfoldable pub resolve_keeper_resources : ComponentSpec → EffectiveResources
unfolding resource_requirements
resolve_keeper_resources keeper = resource_requirements keeper.resources 500 gibibyte

size_of : ℕ → Option Storage → ℕ
size_of fallback none = fallback
size_of fallback (some storage) = if storage.size == 0 then fallback else storage.size

class_of : Option Storage → Option String
class_of none = none
class_of (some storage) = storage.storage_class

-- The size, 25Gi by default, and the storage class.
unfoldable pub resolve_storage : ComponentSpec → ℕ × Option String
unfolding size_of class_of
resolve_storage engine = (size_of (25 * gibibyte) engine.storage, class_of engine.storage)

-- The size of a Keeper volume, 10Gi by default.
unfoldable pub keeper_storage_size : ComponentSpec → ℕ
unfolding size_of
keeper_storage_size keeper = size_of (10 * gibibyte) keeper.storage

unfoldable pub storage_reclaim_policy : Instance → String
storage_reclaim_policy instance_ =
    if equal_fold (parameters_of (engine_of instance_)).storage_reclaim_policy
      storage_reclaim_policy_delete
    then storage_reclaim_policy_delete
    else storage_reclaim_policy_retain
