-- ===== src/Validation/Accepted.antt =====
-- What an accepted Instance guarantees to what is rendered for it: its replicas, its Keeper and its
-- resources are those that it asks for.
use provider_altinity_clickh.Prelude.{
  ℕ, ◌≤◌, ◌≡◌, refl, ap, ◌⊎◌, inl, inr, String, Bool, true, false, not, ◌&&◌, ◌||◌, Option, none,
  some, arith,
}
use provider_altinity_clickh.Prelude.Int.{ℤ, pos, negsuc}
use provider_altinity_clickh.Prelude.Result
use provider_altinity_clickh.Prelude.Result.{Error, Result, ok, err, reject_if}
use provider_altinity_clickh.Common.{keeper_replicas, component_keeper, component_engine}
use provider_altinity_clickh.Operator.{EffectiveResources}
use provider_altinity_clickh.Instance.{
  Instance, ComponentSpec, engine_of, get_or, zero_component, parameters_of, is_replicated_topology,
}
use provider_altinity_clickh.Cluster.{Api, History, Exec, lift, ◌>>◌}
use provider_altinity_clickh.Validation.Settings.{validate_configuration}
use provider_altinity_clickh.Runtime.{Runtime}
use provider_altinity_clickh.Sizing.{replicas_count, resolve_resources, resolve_keeper_resources}
use provider_altinity_clickh.Validation.{validate, validate_declared, validate_engine}
use provider_altinity_clickh.Validation.Spec.{
  is_reclaim_policy, is_tls_mode, below, above, validate_limits, validate_requests_within_limits,
  validate_keeper, validate_declared_keeper, validate_keeper_spec, validate_spec,
}

-- Two tests that are passed one after the other are both passed.
then-ok :
    (first rest : Result (Unit {0}))
    → Result.◌>>◌ first rest ≡ ok tt
    → (first ≡ ok tt) × (rest ≡ ok tt)
then-ok (ok tt) rest e = (refl, e)
then-ok (err x) rest e = ground arith

reject_if-ok : (test : Bool) (problem : Error) → reject_if test problem ≡ ok tt → test ≡ false
reject_if-ok true problem e = ground arith
reject_if-ok false problem e = refl

-- The requests are within the limits.
abbrev pub Within : EffectiveResources → Type 0
Within r = (r.cpu_request ≤ r.cpu_limit) × (r.memory_request ≤ r.memory_limit)

validate_requests_within_limits-ok :
    (component : String) (r : EffectiveResources)
    → validate_requests_within_limits component r ≡ ok tt
    → Within r
unfolding validate_requests_within_limits
validate_requests_within_limits-ok component r e = (ground arith, ground arith)

-- The replicas are those that the engine states, and at least two, or it states none and the default
-- counts.
abbrev pub Replicated : Instance → Option ℤ → Type 0
Replicated instance_ replicas =
    (replicas ≡ none)
    ⊎ ((n : ℕ) × (replicas ≡ some (pos n)) × (2 ≤ n) × (replicas_count instance_ ≡ n))

not_below :
    (instance_ : Instance) (replicas : Option ℤ)
    → (engine_of instance_).replicas ≡ replicas
    → below replicas 2 ≡ false
    → Replicated instance_ replicas
unfolding replicas_count
not_below instance_ none e b = inl refl
not_below instance_ (some (pos n)) e b = inr (n, refl, ground arith, ground arith)
not_below instance_ (some (negsuc n)) e b = ground arith

-- Keeper is not declared, or the topology is replicated, Keeper states no size or the fixed one, and
-- its requests are within its limits.
abbrev pub KeeperFits : Bool → Option ComponentSpec → Type 0
KeeperFits replicated none = Unit
KeeperFits replicated (some keeper) =
    (replicated ≡ true)
    × ((keeper.replicas ≡ none) ⊎ (keeper.replicas ≡ some (pos keeper_replicas)))
    × Within (resolve_keeper_resources keeper)

fixed_size :
    (replicas : Option ℤ)
    → (below replicas keeper_replicas || above replicas keeper_replicas) ≡ false
    → (replicas ≡ none) ⊎ (replicas ≡ some (pos keeper_replicas))
fixed_size none e = inl refl
fixed_size (some (pos n)) e = inr (ap (λ k. some (pos k)) (ground arith))
fixed_size (some (negsuc n)) e = ground arith

keeper_fits :
    (replicated : Bool) (declared : Option ComponentSpec)
    → validate_declared_keeper replicated declared ≡ ok tt
    → KeeperFits replicated declared
unfolding validate_declared_keeper validate_keeper_spec
keeper_fits replicated none e = tt
keeper_fits replicated (some keeper) e =
    let (topology, rest) = then-ok (reject_if (not replicated) _) _ e in
    let (size, within) =
      then-ok
        (reject_if (below keeper.replicas keeper_replicas || above keeper.replicas keeper_replicas)
          _)
        (validate_requests_within_limits component_keeper (resolve_keeper_resources keeper)) rest in
    let is_replicated = reject_if-ok (not replicated) _ topology in
    (
      ground arith,
      fixed_size keeper.replicas (reject_if-ok _ _ size),
      validate_requests_within_limits-ok component_keeper (resolve_keeper_resources keeper) within,
    )

-- In the replicated topology the replicas that are stated, and in the standalone one at most one.
abbrev pub ReplicasFit : Bool → Instance → Option ℤ → Type 0
ReplicasFit true instance_ replicas = Replicated instance_ replicas
ReplicasFit false instance_ replicas = above replicas 1 ≡ false

replicas_fit :
    (replicated : Bool) (instance_ : Instance) (replicas : Option ℤ)
    → (engine_of instance_).replicas ≡ replicas
    → (replicated && below replicas 2) ≡ false
    → (not replicated && above replicas 1) ≡ false
    → ReplicasFit replicated instance_ replicas
replicas_fit true instance_ replicas e b a = not_below instance_ replicas e b
replicas_fit false instance_ replicas e b a = a

abbrev pub Accepted : Instance → ComponentSpec → Type 0
Accepted instance_ engine =
    Within (resolve_resources engine)
    × ReplicasFit (is_replicated_topology instance_) instance_ engine.replicas
    × KeeperFits (is_replicated_topology instance_) instance_.keeper

validate_spec-Accepted :
    (rt : Runtime) (instance_ : Instance) (engine : ComponentSpec)
    → (engine_of instance_).replicas ≡ engine.replicas
    → validate_spec rt instance_ engine ≡ ok tt
    → Accepted instance_ engine
unfolding validate_spec validate_keeper
validate_spec-Accepted rt instance_ engine r e =
    let replicated = is_replicated_topology instance_ in
    let (limits, e1) = then-ok (validate_limits engine.resources) _ e in
    let (within, e2) =
      then-ok (validate_requests_within_limits component_engine (resolve_resources engine)) _ e1 in
    let (enough, e3) = then-ok (reject_if (replicated && below engine.replicas 2) _) _ e2 in
    let params = parameters_of engine in
    let (policy, e4) =
      then-ok (reject_if (not (is_reclaim_policy params.storage_reclaim_policy)) _) _ e3 in
    let (mode, e5) = then-ok (reject_if (not (is_tls_mode params.tls)) _) _ e4 in
    let (single, e6) = then-ok (reject_if (not replicated && above engine.replicas 1) _) _ e5 in
    let (configuration, keeper) =
      then-ok (validate_configuration rt (parameters_of engine).configuration)
        (validate_keeper instance_) e6 in
    (
      validate_requests_within_limits-ok component_engine (resolve_resources engine) within,
      replicas_fit replicated instance_ engine.replicas r (reject_if-ok _ _ enough)
          (reject_if-ok _ _ single),
      keeper_fits replicated instance_.keeper keeper,
    )

lift-ok :
    (first : Result (Unit {0})) (rest : Exec (Unit {0})) (api : Api) (h h' : History)
    → (lift first >> rest) api h ≡ (ok tt, h')
    → first ≡ ok tt
lift-ok (ok tt) rest api h h' e = refl
lift-ok (err x) rest api h h' e = ground arith

-- The engine's part of Validate
validate_engine-Accepted :
    (rt : Runtime) (instance_ : Instance) (engine : ComponentSpec) (api : Api) (h h' : History)
    → (engine_of instance_).replicas ≡ engine.replicas
    → validate_engine rt instance_ engine api h ≡ (ok tt, h')
    → Accepted instance_ engine
unfolding validate_engine
validate_engine-Accepted rt instance_ engine api h h' r e =
    validate_spec-Accepted rt instance_ engine r
      (lift-ok (validate_spec rt instance_ engine) _ api h h' e)

validate_declared-Accepted :
    (rt : Runtime) (instance_ : Instance) (declared : Option ComponentSpec) (api : Api)
    (h h' : History)
    → instance_.engine ≡ declared
    → validate_declared rt instance_ declared api h ≡ (ok tt, h')
    → (engine : ComponentSpec) × (declared ≡ some engine) × Accepted instance_ engine
unfolding validate_declared
validate_declared-Accepted rt instance_ none api h h' d e = ground arith
validate_declared-Accepted rt instance_ (some engine) api h h' d e = (
  engine,
  refl,
  validate_engine-Accepted rt instance_ engine api h h'
      (ap (λ o. (get_or o zero_component).replicas) d) e,
)

-- An Instance that Validate accepts declares its engine, and what is rendered for it is what it asks
-- for: no request of the engine is above its limit, defaults included; in the replicated topology the
-- number of replicas is the one stated, at least two, unless none is stated, and in the standalone one
-- none above one is stated; and Keeper is declared only in the replicated topology, with its fixed size
-- or none stated, and with no request above its limit.
pub validate-Accepted :
    (rt : Runtime) (instance_ : Instance) (api : Api) (h h' : History)
    → validate rt instance_ api h ≡ (ok tt, h')
    → (engine : ComponentSpec) × (instance_.engine ≡ some engine) × Accepted instance_ engine
unfolding validate
validate-Accepted rt instance_ api h h' e =
    validate_declared-Accepted rt instance_ instance_.engine api h h' refl e
