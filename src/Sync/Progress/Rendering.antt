-- ===== src/Sync/Progress/Rendering.antt =====
-- In a healthy cluster, where everything has an image and settings, Keeper and ClickHouse are
-- planned and rendered.
use provider_altinity_clickh.Prelude.{◌≡◌, ◌≢◌, refl, ℕ, String, Option, none, some, ◌∷◌}
use provider_altinity_clickh.Prelude.Result.{Error, ok}
use provider_altinity_clickh.Operator.{Chi, Chk, Settings}
use provider_altinity_clickh.Instance.{Instance, engine_of, keeper_of}
use provider_altinity_clickh.Common.{component_engine, component_keeper}
use provider_altinity_clickh.Cluster.{
  Api, History, found, missing, failed, Read, read, chk_kind, lift,
}
use provider_altinity_clickh.Cluster.Success.{
  IsHealthy, Any, Gives, optional-ok, >>=-Gives, lift-Gives,
}
use provider_altinity_clickh.Runtime.{Runtime}
use provider_altinity_clickh.Sizing.{resolve_storage}
use provider_altinity_clickh.Image.{resolve_image}
use provider_altinity_clickh.Keeper.{KeeperWiring, KeeperState, next_keeper_wiring}
use provider_altinity_clickh.Keeper.Live.{
  nothing_live, keeper_part, clickhouse_part, live_keeper_state, plan_keeper_wiring,
}
use provider_altinity_clickh.Tls
use provider_altinity_clickh.Tls.{keeper_cr_name}
use provider_altinity_clickh.Render.{chi_credentials, resolve_engine_settings, credentials_for_chi}
use provider_altinity_clickh.Render.Chi.{build_chi_wired}
use provider_altinity_clickh.Render.Chk.{
  build_chk_wired, declared_class, keeper_storage_class, undeclared_class, live_class,
  resolve_keeper_storage,
}
use provider_altinity_clickh.Rollout.{Installation, Inputs, Fingerprints, credentials_secret_name}

-- Everything that is rendered for the Instance has an image, settings and fingerprints.
pub record Renders (rt : Runtime) (prints : Fingerprints) (instance_ : Instance) : Type 0 where
  pub engine_image :
      (image : String) × (resolve_image rt instance_ component_engine (engine_of instance_)
        ≡ ok image)
  pub keeper_image :
      (image : String) × (resolve_image rt instance_ component_keeper (keeper_of instance_)
        ≡ ok image)
  pub settings : (s : Settings) × (resolve_engine_settings rt (engine_of instance_) ≡ ok s)
  pub spec_hash : (obj : Installation) → (s : String) × (prints.spec_hash obj ≡ ok s)
  pub inputs_hash : (inputs : Inputs) → (s : String) × (prints.inputs_hash inputs ≡ ok s)

live_class-ok :
    (engine_class : Option String) (r : Read Chk)
    → ((e : Error) → r ≢ failed e)
    → (class : Option String) × (live_class engine_class r ≡ ok class)
unfolding live_class
live_class-ok engine_class (found chk) n = (_, refl)
live_class-ok engine_class missing n = (engine_class, refl)
live_class-ok engine_class (failed e) n = absurd (n e refl)

-- What the wiring is planned from, once both objects are live.
abbrev pub live_state : Chi → Chk → KeeperState
live_state chi chk = clickhouse_part (some chi) (keeper_part (some chk) nothing_live)

module _ (api : Api) (healthy : IsHealthy api) (instance_ : Instance) where
  module _ (chi : Chi) (chk : Chk)
      (is_chi : (h : History) → api.read_chi h instance_.name ≡ found chi)
      (is_chk : (h : History) → api.read_chk h (keeper_cr_name instance_.name) ≡ found chk) where
    pub plan-Gives :
        Gives api
          (λ plan. plan ≡ next_keeper_wiring (Tls.tls_enabled instance_) (live_state chi chk))
          (plan_keeper_wiring instance_)
    unfolding plan_keeper_wiring live_keeper_state
    plan-Gives = record {
      gives = λ h. (
        next_keeper_wiring (Tls.tls_enabled instance_) (live_state chi chk),
        rw (is_chk h, is_chi (read chk_kind (keeper_cr_name instance_.name) ∷ h)) refl,
        refl,
      );
    }

  -- Whatever is live, the wiring is planned.
  pub planned-Gives : Gives api Any (plan_keeper_wiring instance_)
  unfolding plan_keeper_wiring live_keeper_state
  planned-Gives = record {
    gives = λ h.
        let name = keeper_cr_name instance_.name in
        let (chk, e) = optional-ok name (api.read_chk h name) (healthy.chks h name) in
        let h' = read chk_kind name ∷ h in
        let (chi, e') =
          optional-ok instance_.name (api.read_chi h' instance_.name)
            (healthy.chis h' instance_.name) in
        (
          next_keeper_wiring (Tls.tls_enabled instance_)
              (clickhouse_part chi (keeper_part chk nothing_live)),
          rw (e, e') refl,
          tt,
        );
  }

  module _ (rt : Runtime) (prints : Fingerprints) (renders : Renders rt prints instance_) where
    credentials-Gives : (name : String) → Gives api Any (credentials_for_chi name)
    unfolding credentials_for_chi
    credentials-Gives name = record {
      gives = λ h.
          let (o, e) = optional-ok name (api.read_secret h name) (healthy.secrets h name) in
          (chi_credentials o, rw e refl, tt);
    }

    pub build_chi-Gives :
        (n : ℕ) (wiring : KeeperWiring) → Gives api Any (build_chi_wired rt instance_ n wiring)
    unfolding build_chi_wired
    build_chi-Gives n wiring =
        let (image, is_image) = renders.engine_image in
        let (settings, is_settings) = renders.settings in
        >>=-Gives api Any Any
          (lift (resolve_image rt instance_ component_engine (engine_of instance_))) _
          (lift-Gives api Any _ image is_image tt)
          (λ i any.
            >>=-Gives api Any Any (lift (resolve_engine_settings rt (engine_of instance_))) _
              (lift-Gives api Any _ settings is_settings tt)
              (λ s any'.
                >>=-Gives api Any Any (credentials_for_chi (credentials_secret_name instance_.name))
                  _ (credentials-Gives _) (λ c any''. record { gives = λ h. (_, refl, tt) })))

    class-Gives :
        (declared : Option String) → Gives api Any (keeper_storage_class instance_ declared)
    unfolding keeper_storage_class undeclared_class
    class-Gives (some class) = record { gives = λ h. (some class, refl, tt) }
    class-Gives none = record {
      gives = λ h.
          let (class, e) =
            live_class-ok (resolve_storage (engine_of instance_)).1
              (api.read_chk h (keeper_cr_name instance_.name))
              (healthy.chks h (keeper_cr_name instance_.name)) in
          (class, e, tt);
    }

    storage-Gives : Gives api Any (resolve_keeper_storage instance_ (keeper_of instance_))
    unfolding resolve_keeper_storage
    storage-Gives =
        >>=-Gives api Any Any
          (keeper_storage_class instance_ (declared_class (keeper_of instance_).storage)) _
          (class-Gives _) (λ class any. record { gives = λ h. (_, refl, tt) })

    pub build_chk-Gives :
        (wiring : KeeperWiring) → Gives api Any (build_chk_wired rt instance_ wiring)
    unfolding build_chk_wired
    build_chk-Gives wiring =
        let (image, is_image) = renders.keeper_image in
        >>=-Gives api Any Any
          (lift (resolve_image rt instance_ component_keeper (keeper_of instance_))) _
          (lift-Gives api Any _ image is_image tt)
          (λ i any.
            >>=-Gives api Any Any (resolve_keeper_storage instance_ (keeper_of instance_)) _
              storage-Gives (λ s any'. record { gives = λ h. (_, refl, tt) }))
