-- ===== src/Validation/Unchanged.antt =====
-- An Instance whose deployed ClickHouse was rendered for it as it is passes its transitions: what
-- Validate reads back from the CHI is what was rendered.
use mathlib.Core.Path.{subst}
use provider_altinity_clickh.Prelude.{
  ℕ, ◌≢◌, inl, inr, ◌≡◌, refl, sym, ◌∙◌, String, true, false, Option, none, some, List, [], ◌∷◌,
  arith, eq_refl,
}
use provider_altinity_clickh.Prelude.Int.{is_negative}
use provider_altinity_clickh.Prelude.Result.{Result, ok}
use provider_altinity_clickh.Common.{
  pod_template_name, data_volume_claim_template_name, component_engine, label_chi_name,
}
use provider_altinity_clickh.Operator
use provider_altinity_clickh.Operator.{
  Settings, Templates, PodTemplate, VolumeClaimTemplate, OperatorStatus, InstallationSpec,
}
use provider_altinity_clickh.Instance.{
  Instance, ComponentSpec, Service, engine_of, is_replicated_topology,
}
use provider_altinity_clickh.Cluster.{Api, History, found}
use provider_altinity_clickh.Cluster.Secret.{Data}
use provider_altinity_clickh.Runtime.{Runtime, Version}
use provider_altinity_clickh.Tls.{tls_mode}
use provider_altinity_clickh.Sizing.{resolve_storage, storage_reclaim_policy}
use provider_altinity_clickh.Scheduling.{apply_scheduling_policy, follow_policy}
use provider_altinity_clickh.Expose.{
  OperatorPorts, configure_expose, add_template, with_service_template,
}
use provider_altinity_clickh.Image.{resolve_image}
use provider_altinity_clickh.Image.Choice.{resolve_image-NonEmpty}
use provider_altinity_clickh.Render.{chi_credentials}
use provider_altinity_clickh.Render.Errors.{build_chi_wired_ends}
use provider_altinity_clickh.Keeper.{KeeperWiring}
use provider_altinity_clickh.Render.Chi.{
  build_chi_wired, render_chi, chi_templates, clickhouse_container,
}
use provider_altinity_clickh.Render.Chk.{claim_template, named_claim_template}
use provider_altinity_clickh.Render.Wiring.{spec_before}
use provider_altinity_clickh.Render.Switching.{live_chi}
use provider_altinity_clickh.Validation.Version.{
  image_version, compare_segments, current_image, templates_image, container_image,
  validate_version, reject_image, reject_downgrade,
}
use provider_altinity_clickh.Validation.Volumes.{
  equal_storage_class, validate_size, validate_class, validate_volumes,
}
use provider_altinity_clickh.Validation.Deployed.{
  validate_topology, validate_storage_transition, validate_live_clickhouse,
}

current_image-configure_expose :
    (ports : OperatorPorts) (spec : InstallationSpec) (service : Option Service)
    (mode template container : String) (t : Templates)
    → spec.templates ≡ some t
    → current_image template container (configure_expose ports spec service mode).templates
      ≡ templates_image template container t.pod_templates
unfolding configure_expose add_template with_service_template current_image
current_image-configure_expose ports spec service mode template container t e = ground arith

claim_template-configure_expose :
    (ports : OperatorPorts) (spec : InstallationSpec) (service : Option Service)
    (mode name : String) (t : Templates)
    → spec.templates ≡ some t
    → claim_template name (configure_expose ports spec service mode).templates
      ≡ named_claim_template name t.volume_claim_templates
unfolding configure_expose add_template with_service_template claim_template
claim_template-configure_expose ports spec service mode name t e = ground arith

compare_segments-same : (as_ : List ℕ) → is_negative (compare_segments as_ as_) ≡ false
unfolding compare_segments
compare_segments-same [] = refl
compare_segments-same (a ∷ as_) = let rest = compare_segments-same as_ in ground arith

-- The image that is deployed is no downgrade of itself.
pub validate_version-same :
    (rt : Runtime) (name : String) (version : Option Version) (image : String)
    → image_version rt image ≡ version
    → validate_version rt name version (ok image) ≡ ok tt
unfolding validate_version reject_image reject_downgrade
validate_version-same rt name none image e = refl
validate_version-same rt name (some v) image e =
    let same = compare_segments-same v.segments in ground arith

equal_storage_class-same : (class : Option String) → equal_storage_class class class ≡ true
unfolding equal_storage_class
equal_storage_class-same none = refl
equal_storage_class-same (some class) = eq_refl class

validate_size-same :
    (component key value : String) (size : ℕ) (api : Api) (h : History)
    → validate_size component key value (some size) size api h ≡ (ok tt, h)
unfolding validate_size
validate_size-same component key value size api h = ground arith

validate_class-same :
    (component : String) (class : Option String) → validate_class component class class ≡ ok tt
unfolding validate_class
validate_class-same component class = rw (equal_storage_class-same class) refl

pub validate_volumes-same :
    (component key value : String) (current : VolumeClaimTemplate) (size : ℕ)
    (class : Option String) (api : Api) (h : History)
    → current.storage_request ≡ some size
    → current.storage_class ≡ class
    → validate_volumes component key value current (size, class) api h ≡ (ok tt, h)
unfolding validate_volumes
validate_volumes-same component key value current size class api h e c =
    rw
      (e, c, validate_size-same component key value size api h, validate_class-same component class)
      refl

module _ (rt : Runtime) (instance_ : Instance) (n : ℕ) (wiring : KeeperWiring) (image : String)
    (settings : Settings) (credentials : String × Data) where
  abbrev pub chi : Operator.Chi
  chi = render_chi rt instance_ n wiring image settings credentials

  deployed_image : current_image pod_template_name "clickhouse" chi.spec.templates ≡ image
  unfolding render_chi templates_image container_image clickhouse_container apply_scheduling_policy
      follow_policy
  deployed_image =
      current_image-configure_expose rt.operator_ports
        (spec_before rt instance_ n wiring image settings credentials) (engine_of instance_).service
        (tls_mode instance_) pod_template_name "clickhouse"
        (chi_templates rt instance_ image credentials.1) refl
      ∙ ground arith

  abbrev data_volume : VolumeClaimTemplate
  data_volume = record {
    name = data_volume_claim_template_name;
    access_modes = "ReadWriteOnce" ∷ [];
    reclaim_policy = storage_reclaim_policy instance_;
    storage_request = some (resolve_storage (engine_of instance_)).0;
    storage_class = (resolve_storage (engine_of instance_)).1;
  }

  deployed_volume :
      claim_template data_volume_claim_template_name chi.spec.templates ≡ some data_volume
  unfolding render_chi chi_templates named_claim_template
  deployed_volume =
      claim_template-configure_expose rt.operator_ports
        (spec_before rt instance_ n wiring image settings credentials) (engine_of instance_).service
        (tls_mode instance_) data_volume_claim_template_name
        (chi_templates rt instance_ image credentials.1) refl

  pub storage_accepted :
      (engine : ComponentSpec) (api : Api) (h : History)
      → engine ≡ engine_of instance_
      → validate_storage_transition instance_ engine
          (claim_template data_volume_claim_template_name chi.spec.templates)
          api
          h
        ≡ (ok tt, h)
  unfolding validate_storage_transition
  storage_accepted engine api h e =
      rw (deployed_volume, e)
        (validate_volumes-same component_engine label_chi_name instance_.name data_volume
          (resolve_storage (engine_of instance_)).0 (resolve_storage (engine_of instance_)).1 api h
          refl refl)

  pub version_accepted :
      (resolved : Result String)
      → resolved ≡ ok image
      → validate_version rt "ClickHouse"
          (image_version rt (current_image pod_template_name "clickhouse" chi.spec.templates))
          resolved
        ≡ ok tt
  version_accepted resolved e =
      rw (e, deployed_image)
        (validate_version-same rt "ClickHouse" (image_version rt image) image refl)

-- Where the deployed CHI was rendered for the Instance as it is, with the image that its engine still
-- resolves to, an Instance of the replicated topology passes every test on the deployed ClickHouse,
-- without a call to the cluster.
pub validate_live_clickhouse-rendered :
    (rt : Runtime) (instance_ : Instance) (n : ℕ) (wiring : KeeperWiring) (image : String)
    (settings : Settings) (credentials : String × Data) (task : Option String)
    (status : Option OperatorStatus) (api : Api) (h : History)
    → is_replicated_topology instance_ ≡ true
    → resolve_image rt instance_ component_engine (engine_of instance_) ≡ ok image
    → validate_live_clickhouse rt instance_
        (engine_of instance_)
        (found (live_chi task status (render_chi rt instance_ n wiring image settings credentials)))
        api
        h
      ≡ (ok tt, h)
unfolding validate_live_clickhouse validate_topology
validate_live_clickhouse-rendered rt instance_ n wiring image settings credentials task status api h
      replicated resolves =
    let storage =
      storage_accepted rt instance_ n wiring image settings credentials (engine_of instance_) api h
        refl in
    let version = version_accepted rt instance_ n wiring image settings credentials _ resolves in
    rw (replicated, storage, version) refl

-- Every CHI that is rendered without an error states an image for ClickHouse, the one that Validate
-- reads back as deployed.
pub build_chi_wired-NonEmpty :
    (rt : Runtime) (instance_ : Instance) (n : ℕ) (wiring : KeeperWiring) (api : Api)
    (h h' : History) (chi : Operator.Chi)
    → build_chi_wired rt instance_ n wiring api h ≡ (ok chi, h')
    → current_image pod_template_name "clickhouse" chi.spec.templates ≢ ""
build_chi_wired-NonEmpty rt instance_ n wiring api h h' chi e =
    elim (build_chi_wired_ends rt instance_ n wiring api h) [
      | inl (x, image, r) ↦ λ f. ground arith
      | inr (inl (i, x, image, settings, r)) ↦ λ f. ground arith
      | inr (inr (inl (i, s, x, image, settings, secret, r))) ↦ λ f. ground arith
      | inr (inr (inr (i, s, d, image, settings, secret, r))) ↦
          let given =
            resolve_image-NonEmpty rt instance_ component_engine (engine_of instance_) i image in
          let same : chi ≡ render_chi rt instance_ n wiring i s (chi_credentials d) =
            ground arith in
          subst
            (λ (c : Operator.Chi).
              current_image pod_template_name "clickhouse" c.spec.templates ≢ "")
            (sym same)
            (λ f. given (sym (deployed_image rt instance_ n wiring i s (chi_credentials d)) ∙ f))
    ]
