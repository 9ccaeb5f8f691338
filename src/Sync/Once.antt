-- ===== src/Sync/Once.antt =====
-- One Sync changes each thing at most once: the CHI, the CHK, and the request for maintenance, which
-- the gate of the Sync makes for both.
use provider_altinity_clickh.Prelude.{ℕ, ◌+◌, ◌≤◌, refl, [], ◌∷◌, arith, if◌then◌else◌}
use provider_altinity_clickh.Prelude.Result.{Result}
use provider_altinity_clickh.Operator.{Chi, Chk}
use provider_altinity_clickh.Instance.{Instance, is_replicated_topology}
use provider_altinity_clickh.Cluster.{Api, History, pure, lift, ◌>>=◌, ◌>>◌, wrap, attempt}
use provider_altinity_clickh.Cluster.Effects.{count, >>=-Keeps, lift-Keeps, if-Keeps, wrap-Keeps}
use provider_altinity_clickh.Cluster.Bounds.{
  Spends, nothing, >>=-Spends, Keeps-Spends, free, attempt-Spends, if-Spends, weaken-Spends,
}
use provider_altinity_clickh.Rollout.{RolloutGate, clickhouse}
use provider_altinity_clickh.Tls.{keeper_cr_name}
use provider_altinity_clickh.Sync.{
  Surroundings, apply_and_wait_for_chk, apply_and_wait_for_chi, sync_replicated, sync_standalone,
  sync_topology, sync_resources, sync, settled, publish,
}
use provider_altinity_clickh.Sync.Holding.{build_both-Holds}
use provider_altinity_clickh.Render.Chi.{build_chi}
use provider_altinity_clickh.Tls
use provider_altinity_clickh.Tls.Resources.{ensure_tls}
use provider_altinity_clickh.Credentials.{ensure_credentials}
use provider_altinity_clickh.Monitoring.{reconcile_pod_monitor}
use provider_altinity_clickh.Sync.Preparing.{
  ensure_credentials-Holds, ensure_tls-Holds, reconcile_pod_monitor-Holds,
}
use provider_altinity_clickh.Sync.Publishing.{publish-Holds}
use provider_altinity_clickh.Sync.Effects.{
  Watched, watched, Holds, plan_keeper_wiring-Holds, build_chi_wired-Holds, new_rollout_gate-Holds,
}
use provider_altinity_clickh.Sync.Gated.{
  cost, room, one_object, both_objects, apply_and_wait_for_chk-Spends,
  apply_and_wait_for_chi-Spends,
}

module _ (w : Watched) (env : Surroundings) (instance_ : Instance) where
  both-Spends :
      (gate : RolloutGate) (desired : Chk × Chi) (done : Result (Unit {0}))
      → Spends (watched w) 1 nothing (
          apply_and_wait_for_chk env instance_ gate desired.0 >>= λ gate'.
          apply_and_wait_for_chi env instance_ gate' desired.1 >> lift done)
  both-Spends gate (chk, chi) done =
      weaken-Spends (watched w) _ 1 nothing _ (both_objects w chk chi gate.approved) (
        >>=-Spends (watched w) _ (cost w (clickhouse chi)) (λ g. room w g.approved) nothing _ _
          (apply_and_wait_for_chk-Spends w env instance_ gate chk)
          (λ gate'.
            weaken-Spends (watched w) _ (cost w (clickhouse chi) + room w gate'.approved) nothing _
              (omega arith)
              (>>=-Spends (watched w) _ 0 nothing nothing _ _
                (apply_and_wait_for_chi-Spends w env instance_ gate' chi)
                (λ waited. free (watched w) _ _ (lift-Keeps (watched w) done)))))

  build_chi-Holds : (n : ℕ) → Holds w (build_chi env.runtime instance_ n)
  unfolding build_chi
  build_chi-Holds n =
      >>=-Keeps (watched w) _ _ (plan_keeper_wiring-Holds w instance_)
        (λ plan. build_chi_wired-Holds w env.runtime instance_ n plan.0)

  sync_standalone-Spends : Spends (watched w) 1 nothing (sync_standalone env instance_)
  unfolding sync_standalone
  sync_standalone-Spends =
      Keeps-Spends (watched w) 1 nothing
        (wrap "build ClickHouseInstallation" (build_chi env.runtime instance_ 1)) _
        (wrap-Keeps (watched w) _ _ (build_chi-Holds 1))
        (λ chi.
          Keeps-Spends (watched w) 1 nothing _ _
            (new_rollout_gate-Holds w env.prints instance_ (clickhouse chi ∷ []))
            (λ gate.
              weaken-Spends (watched w) _ 1 nothing _ (one_object w chi gate.approved)
                (apply_and_wait_for_chi-Spends w env instance_ gate chi)))

  sync_replicated-Spends : Spends (watched w) 1 nothing (sync_replicated env instance_)
  unfolding sync_replicated
  sync_replicated-Spends =
      Keeps-Spends (watched w) 1 nothing _ _ (plan_keeper_wiring-Holds w instance_) (λ plan.
        Keeps-Spends (watched w) 1 nothing _ _ (build_both-Holds w env instance_ plan.0) (λ desired.
          Keeps-Spends (watched w) 1 nothing _ _ (build_both-Holds w env instance_ plan.1)
            (λ target.
              Keeps-Spends (watched w) 1 nothing _ _
                (new_rollout_gate-Holds w env.prints instance_ _)
                (λ gate. both-Spends gate desired (settled plan)))))

  sync_topology-Spends : Spends (watched w) 1 nothing (sync_topology env instance_)
  unfolding sync_topology
  sync_topology-Spends =
      if-Spends (watched w) 1 nothing (is_replicated_topology instance_) _ _ sync_replicated-Spends
        sync_standalone-Spends

  sync_resources-Spends : Spends (watched w) 1 nothing (sync_resources env instance_)
  unfolding sync_resources
  sync_resources-Spends =
      Keeps-Spends (watched w) 1 nothing
        (wrap "ensure credentials" (ensure_credentials env.crypto instance_)) _
        (wrap-Keeps (watched w) _ _ (ensure_credentials-Holds w env.crypto instance_))
        (λ credentials.
          Keeps-Spends (watched w) 1 nothing
            (if Tls.tls_enabled instance_ then ensure_tls instance_ else pure tt) _
            (if-Keeps (watched w) (Tls.tls_enabled instance_) _ _ (ensure_tls-Holds w instance_)
              (record { keeps = λ api h. refl }))
            (λ tls.
              >>=-Spends (watched w) 1 0 nothing nothing (attempt (sync_topology env instance_)) _
                (attempt-Spends (watched w) 1 _ sync_topology-Spends)
                (λ outcome. free (watched w) 0 _ (
                  >>=-Keeps (watched w) (reconcile_pod_monitor instance_) _
                    (reconcile_pod_monitor-Holds w instance_)
                    (λ monitor. lift-Keeps (watched w) outcome)))))

  sync-Spends : Spends (watched w) 1 nothing (sync env instance_)
  unfolding sync
  sync-Spends =
      >>=-Spends (watched w) 1 0 nothing nothing (attempt (sync_resources env instance_)) _
        (attempt-Spends (watched w) 1 _ sync_resources-Spends)
        (λ outcome. free (watched w) 0 _ (
          >>=-Keeps (watched w) (publish env instance_ outcome) _
            (publish-Holds w env instance_ outcome) (λ done. lift-Keeps (watched w) outcome)))

-- Whatever the API answers, one Sync applies the CHI at most once, applies the CHK at most once, and
-- requests maintenance at most once.
pub sync_once :
    (env : Surroundings) (instance_ : Instance) (api : Api) (h : History) (w : Watched)
    → count (watched w) (sync env instance_ api h).1 ≤ 1 + count (watched w) h
sync_once env instance_ api h w =
    let bound = (sync-Spends w env instance_).spends api h in omega arith
