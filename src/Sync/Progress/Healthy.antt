-- ===== src/Sync/Progress/Healthy.antt =====
-- What a Sync comes to in a healthy cluster, once ClickHouse and, in the replicated topology, Keeper
-- are rolled out.
use provider_altinity_clickh.Prelude.{◌≡◌, refl, ap, ◌∙◌, Bool, true, false, [], ◌∷◌, if◌then◌else◌}
use provider_altinity_clickh.Prelude.Result.{Result, ok}
use provider_altinity_clickh.Operator.{Chi}
use provider_altinity_clickh.Instance.{Instance, is_replicated_topology}
use provider_altinity_clickh.Cluster.{Api, History, found, pure, wrap, wrap_error, attempt}
use provider_altinity_clickh.Cluster.Secret.{Data}
use provider_altinity_clickh.Cluster.Objects.{Peer}
use provider_altinity_clickh.Cluster.Success.{
  wrap-Gives, IsHealthy, Any, Gives, >>=-Gives, lift-Gives, if-Gives,
}
use provider_altinity_clickh.Tls
use provider_altinity_clickh.Tls.Resources.{ensure_tls, server_certificate_issued}
use provider_altinity_clickh.Keeper.{next_keeper_wiring}
use provider_altinity_clickh.Keeper.Live.{plan_keeper_wiring}
use provider_altinity_clickh.NetPol.{operator_peer}
use provider_altinity_clickh.Monitoring.{reconcile_pod_monitor}
use provider_altinity_clickh.Credentials.{ensure_credentials}
use provider_altinity_clickh.Credentials.Derived.{IsComplete}
use provider_altinity_clickh.Credentials.Updates.{ensure_credentials_idle}
use provider_altinity_clickh.Render.Chi.{build_chi}
use provider_altinity_clickh.Rollout.{clickhouse, keeper, new_rollout_gate, credentials_secret_name}
use provider_altinity_clickh.Sync.{
  Surroundings, apply_and_wait_for_chi, apply_and_wait_for_chk, build_both, sync_replicated,
  sync_standalone, sync_topology, sync_resources, settled, publish, sync,
}
use provider_altinity_clickh.Sync.Progress.Certificates.{ensure_tls-Gives}
use provider_altinity_clickh.Sync.Progress.Policies.{reconcile_pod_monitor-Gives}
use provider_altinity_clickh.Sync.Progress.Rendering.{
  Renders, live_state, plan-Gives, planned-Gives, build_chi-Gives,
}
use provider_altinity_clickh.Sync.Progress.Gate.{gate-Gives}
use provider_altinity_clickh.Sync.Progress.Ending.{
  settled-same, InService, KeeperInService, build_both-Gives, wait_for_chi-Gives,
  wait_for_chk-Gives,
}

module _ (env : Surroundings) (instance_ : Instance) (api : Api) (healthy : IsHealthy api)
    (chi : Chi) (serving : InService instance_ api chi) (op : Peer)
    (is_op : operator_peer env.environment ≡ ok op)
    (renders : Renders env.runtime env.prints instance_) where
  sync_replicated-Gives :
      (keeping : KeeperInService instance_ api chi) → Gives api Any (sync_replicated env instance_)
  unfolding sync_replicated
  sync_replicated-Gives keeping =
      let target = next_keeper_wiring (Tls.tls_enabled instance_) (live_state chi keeping.chk) in
      >>=-Gives api (λ plan. plan ≡ target) Any (plan_keeper_wiring instance_) _
        (plan-Gives api healthy instance_ chi keeping.chk serving.is_chi keeping.is_chk)
        (λ plan planned.
          >>=-Gives api Any Any (build_both env instance_ plan.0) _
            (build_both-Gives env instance_ api healthy chi serving op is_op renders plan.0)
            (λ desired any.
              >>=-Gives api Any Any (build_both env instance_ plan.1) _
                (build_both-Gives env instance_ api healthy chi serving op is_op renders plan.1)
                (λ both any'.
                  >>=-Gives api Any Any
                    (new_rollout_gate env.prints instance_ (keeper both.0 ∷ clickhouse both.1 ∷ []))
                    _
                    (gate-Gives api healthy instance_ env.runtime env.prints renders
                      (keeper both.0 ∷ clickhouse both.1 ∷ []) serving.stored)
                    (λ gate any''.
                      >>=-Gives api Any Any (apply_and_wait_for_chk env instance_ gate desired.0) _
                        (wait_for_chk-Gives env instance_ api healthy chi serving op is_op renders
                          keeping gate desired.0)
                        (λ gate' waited.
                          >>=-Gives api Any Any
                            (apply_and_wait_for_chi env instance_ gate' desired.1) _
                            (wait_for_chi-Gives env instance_ api healthy chi serving op is_op
                              renders gate' desired.1)
                            (λ done waited'.
                              lift-Gives api Any (settled plan) tt
                                (ap settled planned ∙ settled-same target keeping.no_switch)
                                tt))))))

  sync_standalone-Gives : Gives api Any (sync_standalone env instance_)
  unfolding sync_standalone build_chi
  sync_standalone-Gives =
      >>=-Gives api Any Any
        (wrap "build ClickHouseInstallation" (build_chi env.runtime instance_ 1)) _
        (wrap-Gives api Any "build ClickHouseInstallation" _ (
          >>=-Gives api Any Any (plan_keeper_wiring instance_) _
            (planned-Gives api healthy instance_)
            (λ plan any.
              build_chi-Gives api healthy instance_ env.runtime env.prints renders 1 plan.0)))
        (λ desired any.
          >>=-Gives api Any Any (new_rollout_gate env.prints instance_ (clickhouse desired ∷ [])) _
            (gate-Gives api healthy instance_ env.runtime env.prints renders
              (clickhouse desired ∷ []) serving.stored)
            (λ gate any'.
              wait_for_chi-Gives env instance_ api healthy chi serving op is_op renders gate
                desired))

  topology-Gives :
      (replicated : Bool)
      → (replicated ≡ true → KeeperInService instance_ api chi)
      → Gives api Any
          (if replicated then sync_replicated env instance_ else sync_standalone env instance_)
  topology-Gives true keeping = sync_replicated-Gives (keeping refl)
  topology-Gives false keeping = sync_standalone-Gives

  module _ (m : Data)
      (is_stored : (h : History)
        → api.read_secret h (credentials_secret_name instance_.name) ≡ found m)
      (complete : IsComplete env.crypto m)
      (issued : Tls.tls_enabled instance_ ≡ true
        → (h : History) → (server_certificate_issued instance_ api h).0 ≡ ok true)
      (keeping : is_replicated_topology instance_ ≡ true → KeeperInService instance_ api chi) where
    credentials-Gives :
        Gives api Any (wrap "ensure credentials" (ensure_credentials env.crypto instance_))
    credentials-Gives = record {
      gives = λ h. (
        m,
        ap (λ r. wrap_error "ensure credentials" r.0)
            (ensure_credentials_idle env.crypto instance_ api h m (is_stored h) complete),
        tt,
      );
    }

    sync_resources-Gives : Gives api (λ r. r ≡ tt) (sync_resources env instance_)
    unfolding sync_resources sync_topology
    sync_resources-Gives =
        >>=-Gives api Any (λ r. r ≡ tt)
          (wrap "ensure credentials" (ensure_credentials env.crypto instance_)) _ credentials-Gives
          (λ data_ any.
            >>=-Gives api Any (λ r. r ≡ tt)
              (if Tls.tls_enabled instance_ then ensure_tls instance_ else pure tt) _
              (if-Gives api Any (Tls.tls_enabled instance_) (ensure_tls instance_) (pure tt)
                (λ e. ensure_tls-Gives api healthy instance_ (issued e))
                (λ e. record { gives = λ h. (tt, refl, tt) }))
              (λ secured any'.
                >>=-Gives api (λ r. r ≡ ok tt) (λ r. r ≡ tt) (attempt (sync_topology env instance_))
                  _
                  (record {
                    gives = λ h.
                        let (a, e, p) =
                          (topology-Gives (is_replicated_topology instance_) keeping).gives h in
                        (_, refl, e);
                  })
                  (λ outcome is_ok.
                    >>=-Gives api Any (λ r. r ≡ tt) (reconcile_pod_monitor instance_) _
                      (reconcile_pod_monitor-Gives api healthy instance_)
                      (λ monitored any''. lift-Gives api (λ r. r ≡ tt) outcome tt is_ok refl))))

    publish-Gives :
        (outcome : Result (Unit {0}))
        → outcome ≡ ok tt
        → Gives api Any (publish env instance_ outcome)
    unfolding publish
    publish-Gives outcome e = rw e (record { gives = λ h. (tt, refl, tt) })

    sync-Gives : Gives api (λ r. r ≡ tt) (sync env instance_)
    unfolding sync
    sync-Gives =
        >>=-Gives api (λ r. r ≡ ok tt) (λ r. r ≡ tt) (attempt (sync_resources env instance_)) _
          (record { gives = λ h. let (a, e, p) = sync_resources-Gives.gives h in (_, refl, e) })
          (λ outcome is_ok.
            >>=-Gives api Any (λ r. r ≡ tt) (publish env instance_ outcome) _
              (publish-Gives outcome is_ok)
              (λ published any. lift-Gives api (λ r. r ≡ tt) outcome tt is_ok refl))

-- In a cluster where no call fails, a Sync ends without an error and without a wait, from every
-- history, when the Instance and a complete credentials Secret are stored, ClickHouse is rolled out,
-- in the replicated topology Keeper is rolled out too and the next Keeper wiring is the last one, the
-- certificate is issued where TLS is on, the operator's pods can be selected, and an image, settings
-- and fingerprints are found for everything that is rendered.
pub sync_done :
    (env : Surroundings) (instance_ : Instance) (api : Api) (chi : Chi) (op : Peer) (m : Data)
    (h : History)
    → IsHealthy api
    → InService instance_ api chi
    → (is_replicated_topology instance_ ≡ true → KeeperInService instance_ api chi)
    → operator_peer env.environment ≡ ok op
    → Renders env.runtime env.prints instance_
    → ((g : History) → api.read_secret g (credentials_secret_name instance_.name) ≡ found m)
    → IsComplete env.crypto m
    → (Tls.tls_enabled instance_ ≡ true
        → (g : History) → (server_certificate_issued instance_ api g).0 ≡ ok true)
    → (sync env instance_ api h).0 ≡ ok tt
sync_done env instance_ api chi op m h healthy serving keeping is_op renders stored complete
      issued =
    let (a, e, p) =
      (sync-Gives env instance_ api healthy chi serving op is_op renders m stored complete issued
          keeping).gives
        h in
    e
