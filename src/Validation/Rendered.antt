-- ===== src/Validation/Rendered.antt =====
-- An Instance that is deployed as it was rendered is accepted again: Validate compares it with what
-- it reads back from the CHI and the CHK.
pub mod Keeper
use Keeper.{DeployedChk, keeper_accepted}
use provider_altinity_clickh.Prelude.{
  ℕ, ◌≡◌, refl, ap, ◌∙◌, sym, inl, inr, String, Bool, true, false, not, Option, none, some, [], ◌∷◌,
  arith, Bool-cases, if◌then◌else◌, ltb, is_some,
}
use provider_altinity_clickh.Prelude.Result.{Result, ok, err, failure, reject_if}
use provider_altinity_clickh.Common.{
  component_engine, component_keeper, label_chk_name, keeper_pod_template_name,
  keeper_data_volume_claim_template_name, pod_template_name, data_volume_claim_template_name,
}
use provider_altinity_clickh.Operator
use provider_altinity_clickh.Operator.{Settings, VolumeClaimTemplate, OperatorStatus, Configuration}
use provider_altinity_clickh.Instance.{
  Instance, ComponentSpec, get_or, zero_component, engine_of, keeper_of, is_replicated_topology,
}
use provider_altinity_clickh.Cluster.{
  Api, History, Exec, found, missing, read, chi_kind, chk_kind, pure, lift, ◌>>=◌, ◌>>◌, get_chk,
}
use provider_altinity_clickh.Cluster.Inversion.{>>=-eq-ok}
use provider_altinity_clickh.Cluster.Secret.{Data}
use provider_altinity_clickh.Runtime.{Runtime}
use provider_altinity_clickh.Sizing.{storage_reclaim_policy, keeper_storage_size}
use provider_altinity_clickh.Tls.{keeper_cr_name, tls_mode}
use provider_altinity_clickh.Image.{resolve_image}
use provider_altinity_clickh.Keeper.{KeeperWiring}
use provider_altinity_clickh.Render.Chi.{
  render_chi, chi_configuration, plain_configuration, with_keeper,
}
use provider_altinity_clickh.Render.Chk.{
  render_chk, named_claim_template, claim_template, live_class, declared_class,
  keeper_volume_claim_template, keeper_storage_class, undeclared_class, resolve_keeper_storage,
}
use provider_altinity_clickh.Render.Wiring.{
  spec_before, configuration-configure_expose, zookeeper-tls_configuration,
}
use provider_altinity_clickh.Render.Switching.{live_chi, live_chk}
use provider_altinity_clickh.Scheduling.{apply_keeper_scheduling_policy, follow_policy}
use provider_altinity_clickh.Validation.Version.{
  image_version, current_image, templates_image, container_image, validate_version,
}
use provider_altinity_clickh.Validation.Volumes.{validate_volumes}
use provider_altinity_clickh.Validation.Deployed.{
  has_zookeeper, validate_keeper_volumes, validate_live_keeper, validate_keeper_transitions,
  is_replicated, exists_result, validate_topology, validate_live_clickhouse, validate_transitions,
}
use provider_altinity_clickh.Validation.Spec.{validate_spec, is_service_type}
use provider_altinity_clickh.Validation.{
  validate, validate_declared, validate_engine, validate_credentials,
}
use provider_altinity_clickh.Validation.Unchanged.{
  validate_version-same, validate_volumes-same, storage_accepted, version_accepted,
}

-- A CHI that was rendered for the Instance as it is.
pub record DeployedChi (rt : Runtime) (instance_ : Instance) (api : Api) : Type 0 where
  pub replicas : ℕ
  pub wiring : KeeperWiring
  pub image : String
  pub settings : Settings
  pub credentials : String × Data
  pub task : Option String
  pub status : Option OperatorStatus
  pub single : is_replicated_topology instance_ ≡ false → replicas ≡ 1
  pub resolves : resolve_image rt instance_ component_engine (engine_of instance_) ≡ ok image
  pub live :
      (g : History)
      → api.read_chi g instance_.name
        ≡ found (
            live_chi task status
              (render_chi rt instance_ replicas wiring image settings credentials))

-- A CHI for one replica is not wired to Keeper.
module _ (rt : Runtime) (instance_ : Instance) (wiring : KeeperWiring) (image : String)
    (settings : Settings) where
  not_wired-chi_configuration :
      (n : ℕ) (username : String)
      → n ≡ 1
      → has_zookeeper (some (chi_configuration instance_ n wiring settings username)) ≡ false
  unfolding chi_configuration plain_configuration with_keeper has_zookeeper
  not_wired-chi_configuration n username one =
      rw one (ap is_some (zookeeper-tls_configuration instance_ wiring _ _ _))

  not_wired :
      (credentials : String × Data) (n : ℕ)
      → n ≡ 1
      → has_zookeeper
          (render_chi rt instance_ n wiring image settings credentials).spec.configuration
        ≡ false
  unfolding render_chi
  not_wired (username, annotations) n one =
      ap has_zookeeper (
        configuration-configure_expose rt.operator_ports
          (spec_before rt instance_ n wiring image settings (username, annotations))
          (engine_of instance_).service (tls_mode instance_))
      ∙ not_wired-chi_configuration n username one

module _ (rt : Runtime) (instance_ : Instance) (api : Api) where
  abbrev live : DeployedChi rt instance_ api → Operator.Chi
  live d =
      live_chi d.task d.status
        (render_chi rt instance_ d.replicas d.wiring d.image d.settings d.credentials)

  topology_cases :
      (d : DeployedChi rt instance_ api) (replicated : Bool) (h : History)
      → (replicated ≡ false → d.replicas ≡ 1)
      → (replicated ≡ false
          → (g : History) → api.read_chk g (keeper_cr_name instance_.name) ≡ missing)
      → ((if replicated
            then pure tt
            else (is_replicated instance_ (live d) >>= λ was. lift (
                reject_if was
                  (failure "the topology cannot be changed from replicated to standalone"))))
          api h).0
        ≡ ok tt
  unfolding is_replicated exists_result
  topology_cases d true h single no_keeper = refl
  topology_cases d false h single no_keeper =
      rw
        (
          not_wired rt instance_ d.wiring d.image d.settings d.credentials d.replicas (single refl),
          no_keeper refl h,
        )
        refl

  module _ (d : DeployedChi rt instance_ api)
      (no_keeper : is_replicated_topology instance_ ≡ false
        → (g : History) → api.read_chk g (keeper_cr_name instance_.name) ≡ missing) where
    topology_accepted : (h : History) → (validate_topology instance_ (live d) api h).0 ≡ ok tt
    unfolding validate_topology
    topology_accepted h = topology_cases d (is_replicated_topology instance_) h d.single no_keeper

    live_clickhouse_accepted :
        (engine : ComponentSpec) (h : History)
        → engine ≡ engine_of instance_
        → (validate_live_clickhouse rt instance_ engine (found (live d)) api h).0 ≡ ok tt
    unfolding validate_live_clickhouse
    live_clickhouse_accepted engine h same =
        let topology = topology_accepted h in
        let h1 = (validate_topology instance_ (live d) api h).1 in
        let storage =
          storage_accepted rt instance_ d.replicas d.wiring d.image d.settings d.credentials engine
            api h1 same in
        let version =
          version_accepted rt instance_ d.replicas d.wiring d.image d.settings d.credentials
            (resolve_image rt instance_ component_engine engine)
            (ap (resolve_image rt instance_ component_engine) same ∙ d.resolves) in
        rw (topology, storage, version) refl

    transitions_accepted :
        (engine : ComponentSpec) (h : History)
        → engine ≡ engine_of instance_
        → (validate_transitions rt instance_ engine api h).0 ≡ ok tt
    unfolding validate_transitions
    transitions_accepted engine h same =
        rw (d.live h) (live_clickhouse_accepted engine (read chi_kind instance_.name ∷ h) same)

    engine_accepted :
        (engine : ComponentSpec) (h : History)
        → engine ≡ engine_of instance_
        → validate_spec rt instance_ engine ≡ ok tt
        → (validate_credentials instance_ api h).0 ≡ ok tt
        → is_service_type engine.service ≡ true
        → (is_replicated_topology instance_ ≡ true → DeployedChk rt instance_ api)
        → (validate_engine rt instance_ engine api h).0 ≡ ok tt
    unfolding validate_engine
    engine_accepted engine h same spec credentials service keeper =
        let h1 = (validate_credentials instance_ api h).1 in
        let h2 = (validate_keeper_transitions rt instance_ api h1).1 in
        rw (spec, credentials, service, keeper_accepted rt instance_ api h1 keeper)
          (transitions_accepted engine h2 same)

-- An Instance whose spec and credentials pass Validate's tests passes it as a whole, in either
-- topology, where the deployed CHI and, in the replicated topology, the deployed CHK were rendered
-- for the Instance as it is, with the images that it still resolves to and the storage that was
-- resolved for Keeper then, and where no CHK exists in the standalone topology.
pub validate-rendered :
    (rt : Runtime) (instance_ : Instance) (engine : ComponentSpec) (api : Api) (h : History)
    → instance_.engine ≡ some engine
    → validate_spec rt instance_ engine ≡ ok tt
    → (validate_credentials instance_ api h).0 ≡ ok tt
    → is_service_type engine.service ≡ true
    → DeployedChi rt instance_ api
    → (is_replicated_topology instance_ ≡ true → DeployedChk rt instance_ api)
    → (is_replicated_topology instance_ ≡ false
        → (g : History) → api.read_chk g (keeper_cr_name instance_.name) ≡ missing)
    → (validate rt instance_ api h).0 ≡ ok tt
unfolding validate validate_declared
validate-rendered rt instance_ engine api h declared spec credentials service chi keeper no_keeper =
    let same : engine ≡ engine_of instance_ = sym (ap (λ e. get_or e zero_component) declared) in
    ap (λ o. (validate_declared rt instance_ o api h).0) declared
    ∙ engine_accepted rt instance_ api chi no_keeper engine h same spec credentials service keeper
