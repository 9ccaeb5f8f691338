-- ===== src/Sync/Holding.antt =====
-- While Keeper is not done, Sync holds ClickHouse: no CHI is applied in the replicated topology.
use provider_altinity_clickh.Prelude.{◌≡◌, ◌≢◌, refl, ap, true, ◌∷◌, arith, if◌then◌else◌}
use provider_altinity_clickh.Prelude.Result.{Result, ok, err}
use provider_altinity_clickh.Operator.{Chk}
use provider_altinity_clickh.Instance.{Instance, is_replicated_topology}
use provider_altinity_clickh.Cluster.{
  History, Api, Read, found, missing, failed, Exec, pure, lift, read, chk_kind, ◌>>=◌, ◌>>◌, wrap,
  attempt,
}
use provider_altinity_clickh.Cluster.Inversion.{>>=-eq-ok}
use provider_altinity_clickh.Cluster.Effects.{
  count, KeepsOn, Keeps-KeepsOn, >>=-KeepsOn, failing-KeepsOn, >>=-Keeps, if-Keeps, wrap-Keeps,
}
use provider_altinity_clickh.Rollout.{RolloutGate, keeper, gate_apply}
use provider_altinity_clickh.Tls
use provider_altinity_clickh.Tls.{keeper_cr_name}
use provider_altinity_clickh.Tls.Resources.{ensure_tls}
use provider_altinity_clickh.Keeper.{KeeperWiring}
use provider_altinity_clickh.Credentials.{ensure_credentials}
use provider_altinity_clickh.Sizing.{replicas_count}
use provider_altinity_clickh.Status.{wait_for_chk}
use provider_altinity_clickh.Render.Chi.{build_chi_wired}
use provider_altinity_clickh.Render.Chk.{build_chk_wired}
use provider_altinity_clickh.Sync.{
  Surroundings, or_wait, build_both, apply_and_wait_for_chk, sync_replicated, sync_topology,
  sync_resources, sync,
}
use provider_altinity_clickh.Sync.Effects.{
  Watched, chi_apply, watched, is_chi_apply, Holds, plan_keeper_wiring-Holds, build_chi_wired-Holds,
  build_chk_wired-Holds, new_rollout_gate-Holds, gate_apply-Holds,
}
use provider_altinity_clickh.Sync.Preparing.{
  ensure_credentials-Holds, ensure_tls-Holds, reconcile_pod_monitor-Holds,
}
use provider_altinity_clickh.Sync.Publishing.{sync-KeepsOn}

module _ (w : Watched) where
  pub build_both-Holds :
      (env : Surroundings) (instance_ : Instance) (wiring : KeeperWiring)
      → Holds w (build_both env instance_ wiring)
  unfolding build_both
  build_both-Holds env instance_ wiring =
      >>=-Keeps (watched w)
        (wrap "build ClickHouseKeeperInstallation" (build_chk_wired env.runtime instance_ wiring)) _
        (wrap-Keeps (watched w) _ _ (build_chk_wired-Holds w env.runtime instance_ wiring))
        (λ chk.
          >>=-Keeps (watched w)
            (wrap "build ClickHouseInstallation"
              (build_chi_wired env.runtime instance_ (replicas_count instance_) wiring))
            _
            (wrap-Keeps (watched w) _ _
              (build_chi_wired-Holds w env.runtime instance_ (replicas_count instance_) wiring))
            (λ chi. record { keeps = λ api h. refl }))

on :
    {api : Api} {A B : Type 0} (m : Exec A) (f : A → Exec B)
    → Holds chi_apply m
    → ((a : A) → KeepsOn is_chi_apply api (f a))
    → KeepsOn is_chi_apply api (m >>= f)
on {api = api} m f k l = >>=-KeepsOn is_chi_apply api m f (Keeps-KeepsOn is_chi_apply api m k) l

apply_and_wait_for_chk-Holds :
    (env : Surroundings) (instance_ : Instance) (gate : RolloutGate) (chk : Chk)
    → Holds chi_apply (apply_and_wait_for_chk env instance_ gate chk)
unfolding apply_and_wait_for_chk
apply_and_wait_for_chk-Holds env instance_ gate chk =
    >>=-Keeps is_chi_apply
      (wrap "apply ClickHouseKeeperInstallation"
        (gate_apply env.prints instance_ gate (keeper chk) "chk"))
      _ (wrap-Keeps is_chi_apply _ _ (gate_apply-Holds env.prints instance_ gate chk "chk"))
      (λ applied. record { keeps = λ api h. ground arith })

done-ok :
    (done : Result (Unit {0})) (g g' : RolloutGate) (api : Api) (h h' : History)
    → (lift done >> pure g) api h ≡ (ok g', h')
    → done ≡ ok tt
done-ok (ok tt) g g' api h h' e = refl
done-ok (err x) g g' api h h' e = ground arith

waited-ok :
    (answer : Read Chk) (g g' : RolloutGate) (api : Api) (h h' : History)
    → (lift (or_wait "waiting for Keeper to initialize" answer) >>= λ current.
          lift (wait_for_chk current) >> pure g)
        api h
      ≡ (ok g', h')
    → (current : Chk) × (answer ≡ found current) × (wait_for_chk current ≡ ok tt)
waited-ok (found chk) g g' api h h' e = (chk, refl, done-ok (wait_for_chk chk) g g' api h h' e)
waited-ok missing g g' api h h' e = ground arith
waited-ok (failed x) g g' api h h' e = ground arith

-- What Sync saw when it went on to ClickHouse.
pub apply_and_wait_for_chk-ok :
    (env : Surroundings) (instance_ : Instance) (gate : RolloutGate) (chk : Chk) (api : Api)
    (h h' : History) (g : RolloutGate)
    → apply_and_wait_for_chk env instance_ gate chk api h ≡ (ok g, h')
    → (h1 : History) × (current : Chk) × (api.read_chk h1 (keeper_cr_name instance_.name)
        ≡ found current)
      × (wait_for_chk current ≡ ok tt)
unfolding apply_and_wait_for_chk
apply_and_wait_for_chk-ok env instance_ gate chk api h h' g e =
    let asked =
      wrap "apply ClickHouseKeeperInstallation"
        (gate_apply env.prints instance_ gate (keeper chk) "chk") in
    let (applied, a, e1) = >>=-eq-ok asked _ api h h' g e in
    let h1 = (asked api h).1 in
    let (current, live, done) =
      waited-ok (api.read_chk h1 (keeper_cr_name instance_.name)) applied.0 g api
        (read chk_kind (keeper_cr_name instance_.name) ∷ h1) h' e1 in
    (h1, current, live, done)

module _ (env : Surroundings) (instance_ : Instance) (api : Api)
    (never : (h : History) (chk : Chk)
      → api.read_chk h (keeper_cr_name instance_.name) ≡ found chk
      → wait_for_chk chk ≢ ok tt) where
  apply_and_wait_for_chk-fails :
      (gate : RolloutGate) (chk : Chk) (h : History) (g : RolloutGate)
      → (apply_and_wait_for_chk env instance_ gate chk api h).0 ≢ ok g
  apply_and_wait_for_chk-fails gate chk h g e =
      let r = apply_and_wait_for_chk env instance_ gate chk api h in
      let (h1, current, live, done) =
        apply_and_wait_for_chk-ok env instance_ gate chk api h r.1 g (ap (λ x. (x, r.1)) e) in
      never h1 current live done

  sync_replicated-KeepsOn : KeepsOn is_chi_apply api (sync_replicated env instance_)
  unfolding sync_replicated
  sync_replicated-KeepsOn = on _ _ (plan_keeper_wiring-Holds chi_apply instance_) (λ plan.
      on _ _ (build_both-Holds chi_apply env instance_ plan.0) (λ desired.
        on _ _ (build_both-Holds chi_apply env instance_ plan.1) (λ target.
          on _ _ (new_rollout_gate-Holds chi_apply env.prints instance_ _) (λ gate.
            failing-KeepsOn is_chi_apply api _ _
              (λ h g. apply_and_wait_for_chk-fails gate desired.0 h g)
              (Keeps-KeepsOn is_chi_apply api _
                (apply_and_wait_for_chk-Holds env instance_ gate desired.0))))))

  sync_topology-KeepsOn :
      is_replicated_topology instance_ ≡ true
      → KeepsOn is_chi_apply api (sync_topology env instance_)
  unfolding sync_topology
  sync_topology-KeepsOn replicated = rw replicated sync_replicated-KeepsOn

  sync_resources-KeepsOn :
      is_replicated_topology instance_ ≡ true
      → KeepsOn is_chi_apply api (sync_resources env instance_)
  unfolding sync_resources
  sync_resources-KeepsOn replicated =
      on (wrap "ensure credentials" (ensure_credentials env.crypto instance_)) _
        (wrap-Keeps is_chi_apply _ _ (ensure_credentials-Holds chi_apply env.crypto instance_))
        (λ credentials.
          on (if Tls.tls_enabled instance_ then ensure_tls instance_ else pure tt) _
            (if-Keeps is_chi_apply (Tls.tls_enabled instance_) _ _
              (ensure_tls-Holds chi_apply instance_) (record { keeps = λ api h. refl }))
            (λ tls.
              >>=-KeepsOn is_chi_apply api (attempt (sync_topology env instance_)) _
                (record { keeps = λ h. (sync_topology-KeepsOn replicated).keeps h })
                (λ outcome.
                  on _ (λ monitor. lift outcome) (reconcile_pod_monitor-Holds chi_apply instance_)
                    (λ monitor. record { keeps = λ h. refl }))))

-- As long as no read of the CHK finds one that the operator has rolled out, a Sync in the replicated
-- topology applies no CHI, whatever else the API answers.
pub sync-holds_clickhouse :
    (env : Surroundings) (instance_ : Instance) (api : Api) (h : History)
    → is_replicated_topology instance_ ≡ true
    → ((h : History) (chk : Chk)
        → api.read_chk h (keeper_cr_name instance_.name) ≡ found chk
        → wait_for_chk chk ≢ ok tt)
    → count is_chi_apply (sync env instance_ api h).1 ≡ count is_chi_apply h
sync-holds_clickhouse env instance_ api h replicated never =
    (sync-KeepsOn chi_apply env instance_ api
        (sync_resources-KeepsOn env instance_ api never replicated)).keeps
      h
