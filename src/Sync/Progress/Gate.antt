-- ===== src/Sync/Progress/Gate.antt =====
-- In a healthy cluster, where everything has fingerprints, the gate does not hold a Sync up.
use provider_altinity_clickh.Prelude.{
  ◌≡◌, ◌≢◌, refl, ap, String, Bool, true, false, ◌&&◌, Option, none, some, List, [], ◌∷◌,
  if◌then◌else◌, is_some,
}
use provider_altinity_clickh.Prelude.Text.{str_eq}
use provider_altinity_clickh.Prelude.Result.{Error, wrapped, ok}
use provider_altinity_clickh.Instance.{Instance}
use provider_altinity_clickh.Cluster.{
  Api, History, Exec, found, missing, failed, Read, read, secret_kind, instance_kind, pure, lift,
  raise, wrap_error, apply,
}
use provider_altinity_clickh.Cluster.Secret.{Data}
use provider_altinity_clickh.Cluster.Success.{
  IsHealthy, Any, Gives, optional-ok, >>=-Gives, lift-Gives, if-Gives,
}
use provider_altinity_clickh.Runtime.{Runtime}
use provider_altinity_clickh.Rollout.{
  Installation, Fingerprints, RolloutGate, clickhouse, keeper, credentials_secret_name,
  rollout_state_name, load_record, user_revision, read_record, inputs_hash, hash_all,
  new_rollout_gate, read_live, existing, gate_apply, gate_live, decide, maintenance_decision,
  apply_allowed, record_applied, save, is_allowed, is_stamped, is_unchanged, stamp_task_id,
  to_object, recorded_inputs, update_record,
}
use provider_altinity_clickh.Sync.Progress.Rendering.{Renders}

existing-ok :
    {A : Type 0} (f : A → Installation) (r : Read A)
    → ((e : Error) → r ≢ failed e)
    → (o : Option Installation) × (existing f r ≡ ok o)
unfolding existing
existing-ok f (found a) n = (some (f a), refl)
existing-ok f missing n = (none, refl)
existing-ok f (failed e) n = absurd (n e refl)

loaded : Read Data → Exec Data
loaded answer = elim answer [
  | found data_ ↦ pure (load_record data_)
  | missing ↦ pure []
  | failed e ↦ raise (wrapped "read rollout state" e)
]

loaded-ok :
    (r : Read Data) (api : Api) (h : History)
    → ((e : Error) → r ≢ failed e)
    → (data_ : Data) × ((loaded r api h).0 ≡ ok data_)
unfolding loaded
loaded-ok (found data_) api h n = (load_record data_, refl)
loaded-ok missing api h n = ([], refl)
loaded-ok (failed e) api h n = absurd (n e refl)

module _ (api : Api) (healthy : IsHealthy api) (instance_ : Instance) where
  module _ (rt : Runtime) (prints : Fingerprints) (renders : Renders rt prints instance_) where
    record-Gives : Gives api Any (read_record instance_)
    unfolding read_record loaded
    record-Gives = record {
      gives = λ h.
          let name = rollout_state_name instance_.name in
          let (data_, e) =
            loaded-ok (api.read_secret h name) api (read secret_kind name ∷ h)
              (healthy.secrets h name) in
          (data_, e, tt);
    }

    hash_all-Gives : (rendered : List Installation) → Gives api Any (hash_all prints rendered)
    unfolding hash_all
    hash_all-Gives [] = record { gives = λ h. ([], refl, tt) }
    hash_all-Gives (obj ∷ rendered) =
        let (hash, e) = renders.spec_hash obj in
        >>=-Gives api Any Any (lift (prints.spec_hash obj)) _ (lift-Gives api Any _ hash e tt)
          (λ s any.
            >>=-Gives api Any Any (hash_all prints rendered) _ (hash_all-Gives rendered)
              (λ ss any'. record { gives = λ h. (_, refl, tt) }))

    inputs-Gives :
        ((h : History) → (i : Instance) × (api.read_instance h instance_.name ≡ found i))
        → Gives api Any (inputs_hash prints instance_)
    unfolding inputs_hash
    inputs-Gives is_stored = record {
      gives = λ h.
          let (stored, e) = is_stored h in
          let h1 = read instance_kind instance_.name ∷ h in
          let name = credentials_secret_name instance_.name in
          let (o, e') = optional-ok name (api.read_secret h1 name) (healthy.secrets h1 name) in
          let (hash, e'') = renders.inputs_hash (record {
            version = stored.version;
            topology = stored.topology;
            engine = stored.engine;
            keeper_component = stored.keeper;
            credentials = user_revision o;
          }) in
          (hash, rw (e, e') e'', tt);
    }

    pub gate-Gives :
        (rendered : List Installation)
        → ((h : History) → (i : Instance) × (api.read_instance h instance_.name ≡ found i))
        → Gives api Any (new_rollout_gate prints instance_ rendered)
    unfolding new_rollout_gate
    gate-Gives rendered is_stored =
        >>=-Gives api Any Any (read_record instance_) _ record-Gives (λ recorded any.
          >>=-Gives api Any Any (inputs_hash prints instance_) _ (inputs-Gives is_stored)
            (λ inputs any'.
              >>=-Gives api Any Any (hash_all prints rendered) _ (hash_all-Gives rendered)
                (λ hashes any''. record { gives = λ h. (_, refl, tt) })))

    read_live-Gives : (obj : Installation) → Gives api Any (read_live obj)
    unfolding read_live
    read_live-Gives (clickhouse chi) = record {
      gives = λ h.
          let (o, e) = existing-ok clickhouse (api.read_chi h chi.name) (healthy.chis h chi.name) in
          (o, e, tt);
    }
    read_live-Gives (keeper chk) = record {
      gives = λ h.
          let (o, e) = existing-ok keeper (api.read_chk h chk.name) (healthy.chks h chk.name) in
          (o, e, tt);
    }

    save-Gives : (g : RolloutGate) → Gives api Any (save instance_ g)
    unfolding save
    save-Gives g = record {
      gives = λ h. (tt, ap (wrap_error "record rollout state") (healthy.applies h _), tt);
    }

    apply_allowed-Gives :
        (g : RolloutGate) (obj : Installation) (key spec : String) (live : Option Installation)
        → Gives api Any (apply_allowed instance_ g obj key spec live)
    unfolding apply_allowed record_applied
    apply_allowed-Gives g obj key spec live =
        >>=-Gives api Any Any
          (apply (to_object (if is_stamped g key spec live then stamp_task_id obj spec else obj))) _
          (record { gives = λ h. (tt, healthy.applies h _, tt) })
          (λ done any.
            if-Gives api Any (is_unchanged g key spec && str_eq (recorded_inputs g key) g.inputs)
              (pure (g, true)) _ (λ e. record { gives = λ h. ((g, true), refl, tt) })
              (λ e.
                >>=-Gives api Any Any (save instance_ (update_record g key spec)) _
                  (save-Gives (update_record g key spec))
                  (λ saved any'. record { gives = λ h. (_, refl, tt) })))

    maintenance-Gives :
        (g : RolloutGate) (known : Option Bool)
        → g.approved ≡ known
        → Gives api Any (maintenance_decision g)
    unfolding maintenance_decision
    maintenance-Gives g none e = record {
      gives = λ h.
          let b = api.request_maintenance h g.token in
          ((record g { approved = some b }, b), rw e refl, tt);
    }
    maintenance-Gives g (some b) e = record { gives = λ h. ((g, b), rw e refl, tt) }

    decide-Gives : (g : RolloutGate) (allowed : Bool) → Gives api Any (decide g allowed)
    unfolding decide
    decide-Gives g true = record { gives = λ h. ((g, true), refl, tt) }
    decide-Gives g false = maintenance-Gives g g.approved refl

    gate_live-Gives :
        (g : RolloutGate) (obj : Installation) (key spec : String) (live : Option Installation)
        → Gives api Any (gate_live instance_ g obj key spec live)
    unfolding gate_live
    gate_live-Gives g obj key spec live =
        >>=-Gives api Any Any (decide g (is_allowed g (is_some live) key spec)) _
          (decide-Gives g (is_allowed g (is_some live) key spec))
          (λ decision any.
            if-Gives api Any decision.1 (apply_allowed instance_ decision.0 obj key spec live) _
              (λ e. apply_allowed-Gives decision.0 obj key spec live)
              (λ e. record { gives = λ h. (_, refl, tt) }))

    pub gate_apply-Gives :
        (g : RolloutGate) (obj : Installation) (key : String)
        → Gives api Any (gate_apply prints instance_ g obj key)
    unfolding gate_apply
    gate_apply-Gives g obj key =
        let (hash, e) = renders.spec_hash obj in
        >>=-Gives api Any Any (lift (prints.spec_hash obj)) _ (lift-Gives api Any _ hash e tt)
          (λ spec any.
            >>=-Gives api Any Any (read_live obj) _ (read_live-Gives obj)
              (λ live any'. gate_live-Gives g obj key spec live))
