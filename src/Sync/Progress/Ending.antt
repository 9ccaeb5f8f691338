-- ===== src/Sync/Progress/Ending.antt =====
-- In a healthy cluster in which Keeper and ClickHouse are rolled out, the waits for them and the end of
-- the switch of the Keeper ports do not hold a Sync up.
use provider_altinity_clickh.Prelude.{arith, true, ◌≡◌, refl, ap, String, not}
use provider_altinity_clickh.Prelude.Int.{==ℤ_iff}
use provider_altinity_clickh.Prelude.Result.{ok}
use provider_altinity_clickh.Operator.{Chi, Chk}
use provider_altinity_clickh.Instance.{Instance}
use provider_altinity_clickh.Cluster.{
  Exec, ◌>>◌, Api, History, found, pure, lift, wrap, get_chi, get_chk, ◌>>=◌,
}
use provider_altinity_clickh.Cluster.Objects.{Peer}
use provider_altinity_clickh.Cluster.Success.{
  IsHealthy, Any, Gives, >>=-Gives, lift-Gives, wrap-Gives, if-Gives,
}
use provider_altinity_clickh.Sizing.{replicas_count}
use provider_altinity_clickh.Tls
use provider_altinity_clickh.Tls.{keeper_cr_name}
use provider_altinity_clickh.Tls.Resources.{cleanup_tls}
use provider_altinity_clickh.Keeper.{KeeperWiring, next_keeper_wiring}
use provider_altinity_clickh.NetPol.{operator_peer, reconcile_plaintext_policy}
use provider_altinity_clickh.Status.{wait_for_chi, wait_for_chk}
use provider_altinity_clickh.Render.Chi.{build_chi_wired}
use provider_altinity_clickh.Render.Chk.{build_chk_wired}
use provider_altinity_clickh.Rollout.{RolloutGate, clickhouse, keeper, gate_apply}
use provider_altinity_clickh.Sync.{
  same_wiring, settled, Surroundings, apply_and_wait_for_chi, apply_and_wait_for_chk, build_both,
  settled, or_wait,
}
use provider_altinity_clickh.Sync.Finishing.{after_chi}
use provider_altinity_clickh.Sync.Progress.Policies.{
  reconcile_plaintext_policy-Gives, cleanup_tls-Gives,
}
use provider_altinity_clickh.Sync.Progress.Rendering.{
  Renders, live_state, build_chi-Gives, build_chk-Gives,
}
use provider_altinity_clickh.Sync.Progress.Gate.{gate_apply-Gives}

-- The Instance is stored, and its ClickHouse is rolled out, whenever they are read.
pub record InService (instance_ : Instance) (api : Api) (chi : Chi) : Type 0 where
  pub stored : (h : History) → (i : Instance) × (api.read_instance h instance_.name ≡ found i)
  pub is_chi : (h : History) → api.read_chi h instance_.name ≡ found chi
  pub chi_serves : wait_for_chi chi ≡ ok tt

-- Its Keeper is rolled out, whenever it is read, and no switch of the ports is left.
pub record KeeperInService (instance_ : Instance) (api : Api) (chi : Chi) : Type 0 where
  pub chk : Chk
  pub is_chk : (h : History) → api.read_chk h (keeper_cr_name instance_.name) ≡ found chk
  pub chk_serves : wait_for_chk chk ≡ ok tt
  pub no_switch :
      let plan = next_keeper_wiring (Tls.tls_enabled instance_) (live_state chi chk) in
      plan.0 ≡ plan.1

same_wiring_refl : (w : KeeperWiring) → same_wiring w w ≡ true
same_wiring_refl w = ground (arith, ==ℤ_iff w.port w.port)

-- A plan whose two wirings agree leaves nothing to switch.
pub settled-same : (plan : KeeperWiring × KeeperWiring) → plan.0 ≡ plan.1 → settled plan ≡ ok tt
unfolding settled
settled-same (step, target) e = rw e (rw (same_wiring_refl target) refl)

module _ (env : Surroundings) (instance_ : Instance) (api : Api) (healthy : IsHealthy api)
    (chi : Chi) (serving : InService instance_ api chi) (op : Peer)
    (is_op : operator_peer env.environment ≡ ok op)
    (renders : Renders env.runtime env.prints instance_) where
  abbrev waiting : String
  waiting = "waiting for Altinity operator to provision ClickHouseInstallation"

  abbrev initializing : String
  initializing = "waiting for Keeper to initialize"

  abbrev after_chk : RolloutGate → Chk → Exec RolloutGate
  after_chk gate current = do lift (wait_for_chk current); pure gate

  after_chk-Gives :
      (gate : RolloutGate) (keeping : KeeperInService instance_ api chi)
      → Gives api Any (after_chk gate keeping.chk)
  after_chk-Gives gate keeping =
      >>=-Gives api Any Any (lift (wait_for_chk keeping.chk)) _
        (lift-Gives api Any (wait_for_chk keeping.chk) tt keeping.chk_serves tt)
        (λ waited any. record { gives = λ h. (gate, refl, tt) })

  after_chi-Gives : Gives api Any (after_chi env instance_ chi)
  after_chi-Gives =
      >>=-Gives api Any Any (reconcile_plaintext_policy env.environment instance_ chi) _
        (reconcile_plaintext_policy-Gives api healthy env.environment op instance_ chi is_op)
        (λ done any.
          >>=-Gives api Any Any (lift (wait_for_chi chi)) _
            (lift-Gives api Any (wait_for_chi chi) tt serving.chi_serves tt)
            (λ waited any'.
              if-Gives api Any (not (Tls.tls_enabled instance_))
                (cleanup_tls env.runtime.has_certificate_file instance_ chi) (pure tt)
                (λ e. cleanup_tls-Gives api healthy env.runtime.has_certificate_file instance_ chi)
                (λ e. record { gives = λ h. (tt, refl, tt) })))

  pub wait_for_chi-Gives :
      (gate : RolloutGate) (desired : Chi)
      → Gives api Any (apply_and_wait_for_chi env instance_ gate desired)
  unfolding apply_and_wait_for_chi
  wait_for_chi-Gives gate desired =
      >>=-Gives api Any Any
        (wrap "apply ClickHouseInstallation"
          (gate_apply env.prints instance_ gate (clickhouse desired) "chi"))
        _
        (wrap-Gives api Any "apply ClickHouseInstallation" _ (
          gate_apply-Gives api healthy instance_ env.runtime env.prints renders gate
            (clickhouse desired) "chi"))
        (λ applied any.
          >>=-Gives api (λ r. r ≡ found chi) Any (get_chi instance_.name)
            (λ answer. lift (or_wait waiting answer) >>= after_chi env instance_)
            (record { gives = λ h. (found chi, ap (λ r. ok r) (serving.is_chi h), refl) })
            (λ answer e.
              >>=-Gives api (λ c. c ≡ chi) Any (lift (or_wait waiting answer))
                (after_chi env instance_)
                (lift-Gives api (λ c. c ≡ chi) (or_wait waiting answer) chi (ap (or_wait waiting) e)
                  refl)
                (λ c is_c. rw is_c after_chi-Gives)))

  pub wait_for_chk-Gives :
      (keeping : KeeperInService instance_ api chi) (gate : RolloutGate) (desired : Chk)
      → Gives api Any (apply_and_wait_for_chk env instance_ gate desired)
  unfolding apply_and_wait_for_chk
  wait_for_chk-Gives keeping gate desired =
      >>=-Gives api Any Any
        (wrap "apply ClickHouseKeeperInstallation"
          (gate_apply env.prints instance_ gate (keeper desired) "chk"))
        _
        (wrap-Gives api Any "apply ClickHouseKeeperInstallation" _ (
          gate_apply-Gives api healthy instance_ env.runtime env.prints renders gate
            (keeper desired) "chk"))
        (λ applied any.
          >>=-Gives api (λ r. r ≡ found keeping.chk) Any (get_chk (keeper_cr_name instance_.name))
            (λ answer. lift (or_wait initializing answer) >>= after_chk applied.0)
            (record { gives = λ h. (found keeping.chk, ap (λ r. ok r) (keeping.is_chk h), refl) })
            (λ answer e.
              >>=-Gives api (λ c. c ≡ keeping.chk) Any (lift (or_wait initializing answer))
                (after_chk applied.0)
                (lift-Gives api (λ c. c ≡ keeping.chk) (or_wait initializing answer) keeping.chk
                  (ap (or_wait initializing) e) refl)
                (λ c is_c. rw is_c (after_chk-Gives applied.0 keeping))))

  pub build_both-Gives : (wiring : KeeperWiring) → Gives api Any (build_both env instance_ wiring)
  unfolding build_both
  build_both-Gives wiring =
      >>=-Gives api Any Any
        (wrap "build ClickHouseKeeperInstallation" (build_chk_wired env.runtime instance_ wiring)) _
        (wrap-Gives api Any "build ClickHouseKeeperInstallation" _
          (build_chk-Gives api healthy instance_ env.runtime env.prints renders wiring))
        (λ built any.
          >>=-Gives api Any Any
            (wrap "build ClickHouseInstallation"
              (build_chi_wired env.runtime instance_ (replicas_count instance_) wiring))
            _
            (wrap-Gives api Any "build ClickHouseInstallation" _ (
              build_chi-Gives api healthy instance_ env.runtime env.prints renders
                (replicas_count instance_) wiring))
            (λ built' any'. record { gives = λ h. (_, refl, tt) }))
