-- ===== src/Validation/Rendered/Keeper.antt =====
-- The deployed Keeper of an Instance that is as it was rendered passes the tests on Keeper.
use provider_altinity_clickh.Prelude.{
  ℕ, ◌≡◌, refl, ap, ◌∙◌, String, Bool, true, false, not, Option, none, some, [], ◌∷◌, arith,
  if◌then◌else◌,
}
use provider_altinity_clickh.Prelude.Result.{ok}
use provider_altinity_clickh.Common.{
  component_keeper, label_chk_name, keeper_pod_template_name,
  keeper_data_volume_claim_template_name,
}
use provider_altinity_clickh.Operator
use provider_altinity_clickh.Operator.{Settings, VolumeClaimTemplate, OperatorStatus, Configuration}
use provider_altinity_clickh.Instance.{Instance, keeper_of, is_replicated_topology}
use provider_altinity_clickh.Cluster.{Api, History, found, read, chk_kind, pure, ◌>>=◌, get_chk}
use provider_altinity_clickh.Cluster.Inversion.{>>=-eq-ok}
use provider_altinity_clickh.Runtime.{Runtime}
use provider_altinity_clickh.Sizing.{storage_reclaim_policy, keeper_storage_size}
use provider_altinity_clickh.Tls.{keeper_cr_name}
use provider_altinity_clickh.Image.{resolve_image}
use provider_altinity_clickh.Keeper.{KeeperWiring}
use provider_altinity_clickh.Render.Chk.{
  render_chk, named_claim_template, claim_template, live_class, declared_class,
  keeper_volume_claim_template, keeper_storage_class, undeclared_class, resolve_keeper_storage,
}
use provider_altinity_clickh.Render.Switching.{live_chk}
use provider_altinity_clickh.Scheduling.{apply_keeper_scheduling_policy, follow_policy}
use provider_altinity_clickh.Validation.Version.{
  image_version, current_image, templates_image, container_image, validate_version,
}
use provider_altinity_clickh.Validation.Deployed.{
  validate_keeper_volumes, validate_live_keeper, validate_keeper_transitions,
}
use provider_altinity_clickh.Validation.Unchanged.{validate_version-same, validate_volumes-same}

-- The volume of a CHK that was rendered with this storage.
abbrev keeper_volume : Instance → ℕ × Option String → VolumeClaimTemplate
keeper_volume instance_ storage = record {
  name = keeper_data_volume_claim_template_name;
  access_modes = "ReadWriteOnce" ∷ [];
  reclaim_policy = storage_reclaim_policy instance_;
  storage_request = some storage.0;
  storage_class = storage.1;
}

module _ (rt : Runtime) (instance_ : Instance) (wiring : KeeperWiring) (image : String)
    (storage : ℕ × Option String) (task : Option String) (status : Option OperatorStatus) where
  abbrev chk : Operator.Chk
  chk = live_chk task status (render_chk rt instance_ wiring image storage)

  deployed_volume : keeper_volume_claim_template chk ≡ some (keeper_volume instance_ storage)
  unfolding render_chk keeper_volume_claim_template claim_template named_claim_template
  deployed_volume = refl

  deployed_image :
      current_image keeper_pod_template_name "clickhouse-keeper" chk.spec.templates ≡ image
  unfolding render_chk current_image templates_image container_image apply_keeper_scheduling_policy
      follow_policy
  deployed_image = ground arith

  storage_class_again :
      (declared : Option String) (past api : Api) (before h : History)
      → (keeper_storage_class instance_ declared past before).0 ≡ ok storage.1
      → api.read_chk h (keeper_cr_name instance_.name) ≡ found chk
      → (keeper_storage_class instance_ declared api h).0 ≡ ok storage.1
  unfolding keeper_storage_class undeclared_class live_class
  storage_class_again none past api before h was live = rw live (ground (arith, deployed_volume))
  storage_class_again (some declared) past api before h was live = was

  -- What was resolved when the CHK was rendered is resolved again from the live one.
  storage_again :
      (past api : Api) (before h : History)
      → (resolve_keeper_storage instance_ (keeper_of instance_) past before).0 ≡ ok storage
      → api.read_chk h (keeper_cr_name instance_.name) ≡ found chk
      → resolve_keeper_storage instance_ (keeper_of instance_) api h
        ≡ (ok storage, (resolve_keeper_storage instance_ (keeper_of instance_) api h).1)
  unfolding resolve_keeper_storage
  storage_again past api before h was live =
      let declared = declared_class (keeper_of instance_).storage in
      let earlier = resolve_keeper_storage instance_ (keeper_of instance_) past before in
      let (class, e1, r1) =
        >>=-eq-ok (keeper_storage_class instance_ declared) _ past before earlier.1 storage
          (ap (λ r. (r, earlier.1)) was) in
      let same_class : class ≡ storage.1 = ground arith in
      let same_size : keeper_storage_size (keeper_of instance_) ≡ storage.0 = ground arith in
      let again =
        storage_class_again declared past api before h (e1 ∙ ap (λ c. ok c) same_class) live in
      rw again (
        ap (λ size. (ok (size, storage.1), (keeper_storage_class instance_ declared api h).1))
          same_size)

  volumes_accepted :
      (past api : Api) (before h : History)
      → (resolve_keeper_storage instance_ (keeper_of instance_) past before).0 ≡ ok storage
      → api.read_chk h (keeper_cr_name instance_.name) ≡ found chk
      → (validate_keeper_volumes instance_ (keeper_volume_claim_template chk) api h).0 ≡ ok tt
  unfolding validate_keeper_volumes
  volumes_accepted past api before h was live =
      rw (deployed_volume, storage_again past api before h was live)
        (ap (λ r. r.0)
          (validate_volumes-same component_keeper label_chk_name (keeper_cr_name instance_.name)
            (keeper_volume instance_ storage) storage.0 storage.1 api
            (resolve_keeper_storage instance_ (keeper_of instance_) api h).1 refl refl))

  keeper_version_accepted :
      resolve_image rt instance_ component_keeper (keeper_of instance_) ≡ ok image
      → validate_version rt "keeper"
          (image_version rt
            (current_image keeper_pod_template_name "clickhouse-keeper" chk.spec.templates))
          (resolve_image rt instance_ component_keeper (keeper_of instance_))
        ≡ ok tt
  keeper_version_accepted resolves =
      rw (resolves, deployed_image)
        (validate_version-same rt "keeper" (image_version rt image) image refl)

  live_keeper_accepted :
      (past api : Api) (before h : History)
      → (resolve_keeper_storage instance_ (keeper_of instance_) past before).0 ≡ ok storage
      → resolve_image rt instance_ component_keeper (keeper_of instance_) ≡ ok image
      → api.read_chk h (keeper_cr_name instance_.name) ≡ found chk
      → (validate_live_keeper rt instance_ (found chk) api h).0 ≡ ok tt
  unfolding validate_live_keeper
  live_keeper_accepted past api before h was resolves live =
      rw (volumes_accepted past api before h was live) (keeper_version_accepted resolves)

-- A CHK that was rendered for the Instance as it is, with the storage that was resolved then.
pub record DeployedChk (rt : Runtime) (instance_ : Instance) (api : Api) : Type 0 where
  pub wiring : KeeperWiring
  pub image : String
  pub storage : ℕ × Option String
  pub task : Option String
  pub status : Option OperatorStatus
  pub past : Api
  pub before : History
  pub resolved : (resolve_keeper_storage instance_ (keeper_of instance_) past before).0 ≡ ok storage
  pub resolves : resolve_image rt instance_ component_keeper (keeper_of instance_) ≡ ok image
  pub live :
      (g : History)
      → api.read_chk g (keeper_cr_name instance_.name)
        ≡ found (live_chk task status (render_chk rt instance_ wiring image storage))

module _ (rt : Runtime) (instance_ : Instance) (api : Api) where
  keeper_asked :
      (asked : Bool) (h : History)
      → (asked ≡ true → DeployedChk rt instance_ api)
      → ((if not asked
            then pure tt
            else (get_chk (keeper_cr_name instance_.name) >>= λ answer.
                validate_live_keeper rt instance_ answer))
          api h).0
        ≡ ok tt
  keeper_asked false h deployed = refl
  keeper_asked true h deployed =
      let d = deployed refl in
      rw (d.live h) (
        live_keeper_accepted rt instance_ d.wiring d.image d.storage d.task d.status d.past api
          d.before (read chk_kind (keeper_cr_name instance_.name) ∷ h) d.resolved d.resolves
          (d.live (read chk_kind (keeper_cr_name instance_.name) ∷ h)))

  pub keeper_accepted :
      (h : History)
      → (is_replicated_topology instance_ ≡ true → DeployedChk rt instance_ api)
      → (validate_keeper_transitions rt instance_ api h).0 ≡ ok tt
  unfolding validate_keeper_transitions
  keeper_accepted h deployed = keeper_asked (is_replicated_topology instance_) h deployed
