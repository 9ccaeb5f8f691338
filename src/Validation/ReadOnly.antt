-- ===== src/Validation/ReadOnly.antt =====
-- Validate only reads: it leaves no change in the cluster, whatever the API answers.
use provider_altinity_clickh.Prelude.{
  ℕ, ◌≡◌, refl, String, Bool, true, false, not, Option, none, some, List, [], ◌∷◌, arith, any, ltb,
}
use provider_altinity_clickh.Prelude.Text.{str_eq, ◌<>◌}
use provider_altinity_clickh.Prelude.Result.{err, reject_if, failure}
use provider_altinity_clickh.Operator.{VolumeClaimTemplate, Chi, Chk}
use provider_altinity_clickh.Instance.{Instance, ComponentSpec, keeper_of, is_replicated_topology}
use provider_altinity_clickh.Cluster.{
  Event, read, listed, Api, History, Read, found, missing, failed, Exec, lift, pure, Pvc, wrap,
  list_pvcs, get_chi, get_chk,
}
use provider_altinity_clickh.Cluster.Effects.{count, Keeps, >>=-Keeps, lift-Keeps, if-Keeps}
use provider_altinity_clickh.Runtime.{Runtime}
use provider_altinity_clickh.Tls.{keeper_cr_name}
use provider_altinity_clickh.Render.Chk.{
  keeper_volume_claim_template, keeper_storage_class, undeclared_class, resolve_keeper_storage,
}
use provider_altinity_clickh.Validation.Volumes.{
  check_class, check_claim, check_claims, validate_expandable, validate_size, validate_volumes,
}
use provider_altinity_clickh.Validation.Spec.{validate_spec, is_service_type}
use provider_altinity_clickh.Validation.Deployed.{
  validate_keeper_volumes, validate_live_keeper, validate_keeper_transitions, is_replicated,
  validate_topology, validate_storage_transition, validate_live_clickhouse, validate_transitions,
}
use provider_altinity_clickh.Validation.{
  validate_secret_named, validate_reference, validate_credentials, validate_engine,
  validate_declared, validate,
}

-- A call that is not a read or a list.
abbrev pub is_change : Event → Bool
is_change (read kind name) = false
is_change (listed key value) = false
is_change _ = true

abbrev Reads : {A : Type 0} → Exec A → Type 0
Reads m = Keeps is_change m

check_class-Reads : (component name : String) → Reads (check_class component name)
unfolding check_class
check_class-Reads component name = record { keeps = λ api h. refl }

check_claim-Reads :
    (component : String) (checked : List String) (class : Option String)
    (rest : List String → Exec (Unit {0}))
    → ((names : List String) → Reads (rest names))
    → Reads (check_claim component checked class rest)
unfolding check_claim
check_claim-Reads component checked none rest k = k checked
check_claim-Reads component checked (some name) rest k =
    if-Keeps is_change (any (str_eq name) checked) _ _ (k checked)
      (>>=-Keeps is_change _ _ (check_class-Reads component name) (λ done. k (name ∷ checked)))

check_claims-Reads :
    (component : String) (checked : List String) (pvcs : List Pvc)
    → Reads (check_claims component checked pvcs)
unfolding check_claims
check_claims-Reads component checked [] = record { keeps = λ api h. refl }
check_claims-Reads component checked (pvc ∷ pvcs) =
    check_claim-Reads component checked pvc.storage_class _
      (λ names. check_claims-Reads component names pvcs)

validate_expandable-Reads :
    (component key value : String) → Reads (validate_expandable component key value)
unfolding validate_expandable
validate_expandable-Reads component key value =
    >>=-Keeps is_change (wrap ("list " <> component <> " volumes") (list_pvcs key value)) _
      (record { keeps = λ api h. refl }) (λ pvcs. check_claims-Reads component [] pvcs)

validate_size-Reads :
    (component key value : String) (current : Option ℕ) (size : ℕ)
    → Reads (validate_size component key value current size)
unfolding validate_size
validate_size-Reads component key value none size = record { keeps = λ api h. refl }
validate_size-Reads component key value (some current) size =
    if-Keeps is_change (ltb size current)
      (lift (err (failure (component <> " storage cannot shrink")))) _ (lift-Keeps is_change _)
      (if-Keeps is_change (ltb current size) _ (pure tt)
        (validate_expandable-Reads component key value) (lift-Keeps is_change _))

validate_volumes-Reads :
    (component key value : String) (current : VolumeClaimTemplate) (wanted : ℕ × Option String)
    → Reads (validate_volumes component key value current wanted)
unfolding validate_volumes
validate_volumes-Reads component key value current (size, class) =
    >>=-Keeps is_change _ _ (validate_size-Reads component key value current.storage_request size)
      (λ done. record { keeps = λ api h. refl })

keeper_storage_class-Reads :
    (instance_ : Instance) (declared : Option String)
    → Reads (keeper_storage_class instance_ declared)
unfolding keeper_storage_class undeclared_class
keeper_storage_class-Reads instance_ none = record { keeps = λ api h. ground arith }
keeper_storage_class-Reads instance_ (some class) = record { keeps = λ api h. refl }

resolve_keeper_storage-Reads :
    (instance_ : Instance) (keeper : ComponentSpec)
    → Reads (resolve_keeper_storage instance_ keeper)
unfolding resolve_keeper_storage
resolve_keeper_storage-Reads instance_ keeper =
    >>=-Keeps is_change _ _ (keeper_storage_class-Reads instance_ _)
      (λ class. record { keeps = λ api h. refl })

validate_keeper_volumes-Reads :
    (instance_ : Instance) (current : Option VolumeClaimTemplate)
    → Reads (validate_keeper_volumes instance_ current)
unfolding validate_keeper_volumes
validate_keeper_volumes-Reads instance_ none = record { keeps = λ api h. refl }
validate_keeper_volumes-Reads instance_ (some current) =
    >>=-Keeps is_change _ _ (resolve_keeper_storage-Reads instance_ (keeper_of instance_))
      (λ storage. validate_volumes-Reads _ _ _ current storage)

validate_live_keeper-Reads :
    (rt : Runtime) (instance_ : Instance) (answer : Read Chk)
    → Reads (validate_live_keeper rt instance_ answer)
unfolding validate_live_keeper
validate_live_keeper-Reads rt instance_ missing = record { keeps = λ api h. refl }
validate_live_keeper-Reads rt instance_ (failed e) = record { keeps = λ api h. refl }
validate_live_keeper-Reads rt instance_ (found chk) =
    >>=-Keeps is_change _ _
      (validate_keeper_volumes-Reads instance_ (keeper_volume_claim_template chk))
      (λ done. record { keeps = λ api h. refl })

validate_keeper_transitions-Reads :
    (rt : Runtime) (instance_ : Instance) → Reads (validate_keeper_transitions rt instance_)
unfolding validate_keeper_transitions
validate_keeper_transitions-Reads rt instance_ =
    if-Keeps is_change (not (is_replicated_topology instance_)) _ _
      (record { keeps = λ api h. refl })
      (>>=-Keeps is_change (get_chk (keeper_cr_name instance_.name)) _
        (record { keeps = λ api h. refl })
        (λ answer. validate_live_keeper-Reads rt instance_ answer))

is_replicated-Reads : (instance_ : Instance) (chi : Chi) → Reads (is_replicated instance_ chi)
unfolding is_replicated
is_replicated-Reads instance_ chi = record { keeps = λ api h. ground arith }

validate_topology-Reads :
    (instance_ : Instance) (chi : Chi) → Reads (validate_topology instance_ chi)
unfolding validate_topology
validate_topology-Reads instance_ chi =
    if-Keeps is_change (is_replicated_topology instance_) (pure tt) _ (lift-Keeps is_change _) (
      >>=-Keeps is_change _ _ (is_replicated-Reads instance_ chi)
        (λ replicated. record { keeps = λ api h. refl }))

validate_storage_transition-Reads :
    (instance_ : Instance) (engine : ComponentSpec) (current : Option VolumeClaimTemplate)
    → Reads (validate_storage_transition instance_ engine current)
unfolding validate_storage_transition
validate_storage_transition-Reads instance_ engine none = record { keeps = λ api h. refl }
validate_storage_transition-Reads instance_ engine (some current) =
    validate_volumes-Reads _ _ _ current _

validate_live_clickhouse-Reads :
    (rt : Runtime) (instance_ : Instance) (engine : ComponentSpec) (answer : Read Chi)
    → Reads (validate_live_clickhouse rt instance_ engine answer)
unfolding validate_live_clickhouse
validate_live_clickhouse-Reads rt instance_ engine missing = record { keeps = λ api h. refl }
validate_live_clickhouse-Reads rt instance_ engine (failed e) = record { keeps = λ api h. refl }
validate_live_clickhouse-Reads rt instance_ engine (found chi) =
    >>=-Keeps is_change _ _ (validate_topology-Reads instance_ chi) (λ topology.
      >>=-Keeps is_change _ _ (validate_storage_transition-Reads instance_ engine _)
        (λ storage. record { keeps = λ api h. refl }))

validate_secret_named-Reads : (what name : String) → Reads (validate_secret_named what name)
unfolding validate_secret_named
validate_secret_named-Reads what name = record { keeps = λ api h. ground arith }

validate_reference-Reads : (ref : Option String) → Reads (validate_reference ref)
unfolding validate_reference
validate_reference-Reads none = record { keeps = λ api h. refl }
validate_reference-Reads (some name) = validate_secret_named-Reads _ name

validate_credentials-Reads : (instance_ : Instance) → Reads (validate_credentials instance_)
unfolding validate_credentials
validate_credentials-Reads instance_ =
    >>=-Keeps is_change _ _ (validate_reference-Reads instance_.user_secret_ref)
      (λ done. validate_secret_named-Reads _ _)

validate_engine-Reads :
    (rt : Runtime) (instance_ : Instance) (engine : ComponentSpec)
    → Reads (validate_engine rt instance_ engine)
unfolding validate_engine validate_transitions
validate_engine-Reads rt instance_ engine =
    >>=-Keeps is_change (lift (validate_spec rt instance_ engine)) _ (lift-Keeps is_change _)
      (λ spec. >>=-Keeps is_change _ _ (validate_credentials-Reads instance_) (λ credentials.
        >>=-Keeps is_change
          (lift (
            reject_if (not (is_service_type engine.service)) (
              failure
                "engine service.serviceType must be one of ClusterIP, LoadBalancer or NodePort")))
          _ (lift-Keeps is_change _)
          (λ service.
            >>=-Keeps is_change _ _ (validate_keeper_transitions-Reads rt instance_) (λ keeper.
              >>=-Keeps is_change (get_chi instance_.name) _ (record { keeps = λ api h. refl })
                (λ answer. validate_live_clickhouse-Reads rt instance_ engine answer)))))

validate_declared-Reads :
    (rt : Runtime) (instance_ : Instance) (declared : Option ComponentSpec)
    → Reads (validate_declared rt instance_ declared)
unfolding validate_declared
validate_declared-Reads rt instance_ none = record { keeps = λ api h. refl }
validate_declared-Reads rt instance_ (some engine) = validate_engine-Reads rt instance_ engine

-- Validate changes nothing: whatever the API answers, every call that it makes is a read or a list.
pub validate-changes_nothing :
    (rt : Runtime) (instance_ : Instance) (api : Api) (h : History)
    → count is_change (validate rt instance_ api h).1 ≡ count is_change h
unfolding validate
validate-changes_nothing rt instance_ api h =
    (validate_declared-Reads rt instance_ instance_.engine).keeps api h
