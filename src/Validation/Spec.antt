-- ===== src/Validation/Spec.antt =====
-- internal/provider/validate.go: what an Instance's spec must state, without reading the cluster.
use provider_altinity_clickh.Prelude.{
  ℕ, String, Bool, true, false, not, ◌&&◌, ◌||◌, Option, none, some, ltb, ◌==◌,
}
use provider_altinity_clickh.Prelude.Int.{ℤ, pos, negsuc}
use provider_altinity_clickh.Prelude.Text.{str_eq, is_empty, equal_fold, ◌<>◌}
use provider_altinity_clickh.Prelude.Result
use provider_altinity_clickh.Prelude.Result.{failure, Result, ok, reject_if}
use provider_altinity_clickh.Common.{
  component_engine, component_keeper, keeper_replicas, storage_reclaim_policy_retain,
  storage_reclaim_policy_delete, tls_mode_required, tls_mode_optional,
}
use provider_altinity_clickh.Operator.{EffectiveResources}
use provider_altinity_clickh.Instance.{
  Instance, ComponentSpec, ResourceRequirements, TlsParameters, Service, parameters_of,
  is_replicated_topology,
}
use provider_altinity_clickh.Runtime.{Runtime}
use provider_altinity_clickh.Sizing.{gibibyte, resolve_resources, resolve_keeper_resources}
use provider_altinity_clickh.Validation.Settings.{validate_configuration}

-- `*replicas < n` and `*replicas > n`
abbrev pub below : Option ℤ → ℕ → Bool
below none n = false
below (some (pos z)) n = ltb z n
below (some (negsuc z)) n = true

abbrev pub above : Option ℤ → ℕ → Bool
above none n = false
above (some (pos z)) n = ltb n z
above (some (negsuc z)) n = false

-- A limit that is set, not zero, and too small
abbrev pub too_small : Option ℕ → ℕ → Bool
too_small none least = false
too_small (some limit) least = not (limit == 0) && ltb limit least

unfoldable pub validate_limits : Option ResourceRequirements → Result (Unit {0})
validate_limits none = ok tt
validate_limits (some declared) =
    Result.◌>>◌
      (reject_if (too_small declared.cpu_limit 1000)
        (failure "engine CPU limit must be at least 1 core"))
      (reject_if (too_small declared.memory_limit gibibyte)
        (failure "engine memory limit must be at least 1Gi"))

-- validateRequestsWithinLimits; the messages leave out the quantities.
unfoldable pub validate_requests_within_limits : String → EffectiveResources → Result (Unit {0})
validate_requests_within_limits component resources =
    Result.◌>>◌
      (reject_if (ltb resources.cpu_limit resources.cpu_request)
        (failure (component <> " cpu request exceeds its limit")))
      (reject_if (ltb resources.memory_limit resources.memory_request)
        (failure (component <> " memory request exceeds its limit")))

unfoldable pub is_reclaim_policy : String → Bool
is_reclaim_policy policy =
    is_empty policy
    || equal_fold policy storage_reclaim_policy_retain
    || equal_fold policy storage_reclaim_policy_delete

unfoldable pub is_tls_mode : Option TlsParameters → Bool
is_tls_mode none = true
is_tls_mode (some tls) =
    is_empty tls.mode
    || equal_fold tls.mode tls_mode_required
    || equal_fold tls.mode tls_mode_optional

unfoldable pub is_service_type : Option Service → Bool
is_service_type none = true
is_service_type (some service) =
    is_empty service.service_type
    || str_eq service.service_type "ClusterIP"
    || str_eq service.service_type "LoadBalancer"
    || str_eq service.service_type "NodePort"

unfoldable pub validate_keeper_spec : Bool → ComponentSpec → Result (Unit {0})
validate_keeper_spec replicated keeper =
    Result.◌>>◌
      (reject_if (not replicated)
        (failure "the keeper component is only used by the replicated topology"))
      (Result.◌>>◌
        (reject_if (below keeper.replicas keeper_replicas || above keeper.replicas keeper_replicas)
          (failure "keeper runs 3 replicas; its size cannot be changed"))
        (validate_requests_within_limits component_keeper (resolve_keeper_resources keeper)))

unfoldable pub validate_declared_keeper : Bool → Option ComponentSpec → Result (Unit {0})
unfolding validate_keeper_spec
validate_declared_keeper replicated none = ok tt
validate_declared_keeper replicated (some keeper) = validate_keeper_spec replicated keeper

-- validateKeeper
unfoldable pub validate_keeper : Instance → Result (Unit {0})
unfolding validate_declared_keeper
validate_keeper instance_ =
    validate_declared_keeper (is_replicated_topology instance_) instance_.keeper

-- Validate, up to the tests that read the cluster
unfoldable pub validate_spec : Runtime → Instance → ComponentSpec → Result (Unit {0})
validate_spec rt instance_ engine =
    let replicated = is_replicated_topology instance_ in
    let params = parameters_of engine in
    Result.◌>>◌ (validate_limits engine.resources) (
      Result.◌>>◌ (validate_requests_within_limits component_engine (resolve_resources engine)) (
        Result.◌>>◌
          (reject_if (replicated && below engine.replicas 2)
            (failure "replicated topology requires at least 2 engine replicas"))
          (Result.◌>>◌
            (reject_if (not (is_reclaim_policy params.storage_reclaim_policy))
              (failure "engine storageReclaimPolicy must be one of Retain or Delete"))
            (Result.◌>>◌
              (reject_if (not (is_tls_mode params.tls))
                (failure "engine tls.mode must be one of required or optional"))
              (Result.◌>>◌
                (reject_if (not replicated && above engine.replicas 1) (
                  failure
                    "the standalone topology runs a single replica; use the replicated topology for more"))
                (Result.◌>>◌ (validate_configuration rt params.configuration)
                  (validate_keeper instance_)))))))
