-- ===== src/Sync/Gated.antt =====
-- What one gate lets through: an apply for each installation that it is asked about, and one request
-- for maintenance.
use provider_altinity_clickh.Prelude.{
  ℕ, ◌+◌, ◌≤◌, ◌≡◌, refl, String, Bool, true, false, Option, none, some, ◌∷◌, arith,
}
use provider_altinity_clickh.Operator.{Chi, Chk}
use provider_altinity_clickh.Instance.{Instance}
use provider_altinity_clickh.Cluster.{
  Api, History, maintenance_requested, pure, lift, ◌>>=◌, ◌>>◌, wrap, get_chi, get_chk,
}
use provider_altinity_clickh.Cluster.Effects.{count, >>=-Keeps, lift-Keeps}
use provider_altinity_clickh.Cluster.Bounds.{
  Spends, left, nothing, >>=-Spends, Keeps-Spends, free, wrap-Spends, weaken-Spends,
}
use provider_altinity_clickh.Rollout.{
  Installation, Fingerprints, RolloutGate, clickhouse, keeper, read_live, gate_apply, gate_live,
  apply_allowed,
}
use provider_altinity_clickh.Rollout.Decision.{
  gate_live_attributed, gate_live_decided, gate_live_requested,
}
use provider_altinity_clickh.Tls.{keeper_cr_name}
use provider_altinity_clickh.Status.{wait_for_chk}
use provider_altinity_clickh.Sync.{
  Surroundings, or_wait, apply_and_wait_for_chk, apply_and_wait_for_chi,
}
use provider_altinity_clickh.Sync.Finishing.{after_chi, after_chi-Holds}
use provider_altinity_clickh.Sync.Effects.{
  Watched, chi_apply, chk_apply, maintenance_request, watched, Holds,
}

-- What applying an installation may count for, and what a gate that has not asked yet may.
abbrev pub cost : Watched → Installation → ℕ
cost chi_apply (clickhouse chi) = 1
cost chi_apply (keeper chk) = 0
cost chk_apply (clickhouse chi) = 0
cost chk_apply (keeper chk) = 1
cost maintenance_request (clickhouse chi) = 0
cost maintenance_request (keeper chk) = 0

abbrev pub room : Watched → Option Bool → ℕ
room maintenance_request none = 1
room maintenance_request (some b) = 0
room chi_apply approved = 0
room chk_apply approved = 0

abbrev kept : Watched → RolloutGate × Bool → ℕ
kept w r = room w r.0.approved

asked :
    (w : Watched) (approved : Bool) (token : String) (h : History)
    → count (watched w) (maintenance_requested token ∷ h) + room w (some approved)
      ≡ count (watched w) h + room w none
asked chi_apply approved token h = omega arith
asked chk_apply approved token h = omega arith
asked maintenance_request approved token h = omega arith

module _ (instance_ : Instance) (key spec : String) (live : Option Installation) (api : Api) where
  apply_allowed-bound :
      (w : Watched) (obj : Installation) (g : RolloutGate) (h : History)
      → let r = apply_allowed instance_ g obj key spec live api h in
        count (watched w) r.1 + left (kept w) r.0
        ≤ cost w obj + room w g.approved + count (watched w) h
  unfolding apply_allowed
  apply_allowed-bound chi_apply (clickhouse chi) g h = ground arith
  apply_allowed-bound chi_apply (keeper chk) g h = ground arith
  apply_allowed-bound chk_apply (clickhouse chi) g h = ground arith
  apply_allowed-bound chk_apply (keeper chk) g h = ground arith
  apply_allowed-bound maintenance_request (clickhouse chi) g h = ground arith
  apply_allowed-bound maintenance_request (keeper chk) g h = ground arith

  module _ (obj : Installation) (g : RolloutGate) (h : History) where
    gate_live-bound :
        (w : Watched)
        → let r = gate_live instance_ g obj key spec live api h in
          count (watched w) r.1 + left (kept w) r.0
          ≤ cost w obj + room w g.approved + count (watched w) h
    gate_live-bound w =
        let attributed = gate_live_attributed instance_ g obj key spec live api h in
        let approved = gate_live_decided instance_ g obj key spec live api h true in
        let denied = gate_live_decided instance_ g obj key spec live api h false in
        let requested = gate_live_requested instance_ g obj key spec live api h in
        let h' = maintenance_requested g.token ∷ h in
        let at = apply_allowed-bound w obj g h in
        let at' = apply_allowed-bound w obj (record g { approved = some true }) h' in
        let granted = asked w true g.token h in
        let refused = asked w false g.token h in ground arith

pub one_object :
    (w : Watched) (chi : Chi) (approved : Option Bool)
    → cost w (clickhouse chi) + room w approved + 0 ≤ 1
one_object w chi approved = ground arith

pub both_objects :
    (w : Watched) (chk : Chk) (chi : Chi) (approved : Option Bool)
    → cost w (keeper chk) + room w approved + 0 + cost w (clickhouse chi) ≤ 1
both_objects w chk chi approved = ground arith

module _ (w : Watched) where
  read_live-Holds : (obj : Installation) → Holds w (read_live obj)
  unfolding read_live
  read_live-Holds (clickhouse chi) = record { keeps = λ api h. refl }
  read_live-Holds (keeper chk) = record { keeps = λ api h. refl }

  gate_apply-Spends :
      (prints : Fingerprints) (instance_ : Instance) (g : RolloutGate) (obj : Installation)
      (key : String)
      → Spends
          (watched w)
          (cost w obj + room w g.approved)
          (kept w)
          (gate_apply prints instance_ g obj key)
  unfolding gate_apply
  gate_apply-Spends prints instance_ g obj key =
      Keeps-Spends (watched w) _ (kept w) (lift (prints.spec_hash obj)) _ (lift-Keeps (watched w) _)
        (λ spec.
          Keeps-Spends (watched w) _ (kept w) (read_live obj) _ (read_live-Holds obj) (λ live.
            record { spends = λ api h. gate_live-bound instance_ key spec live api obj g h w }))

  module _ (env : Surroundings) (instance_ : Instance) where
    after_chk-Spends :
        (g : RolloutGate)
        → Spends
            (watched w)
            (room w g.approved)
            (λ g'. room w g'.approved)
            (get_chk (keeper_cr_name instance_.name) >>= λ answer.
              lift (or_wait "waiting for Keeper to initialize" answer) >>= λ current.
              lift (wait_for_chk current) >> pure g)
    after_chk-Spends g = record { spends = λ api h. ground arith }

    pub apply_and_wait_for_chk-Spends :
        (g : RolloutGate) (chk : Chk)
        → Spends
            (watched w)
            (cost w (keeper chk) + room w g.approved + 0)
            (λ g'. room w g'.approved)
            (apply_and_wait_for_chk env instance_ g chk)
    unfolding apply_and_wait_for_chk
    apply_and_wait_for_chk-Spends g chk =
        >>=-Spends (watched w) _ 0 (kept w) _
          (wrap "apply ClickHouseKeeperInstallation"
            (gate_apply env.prints instance_ g (keeper chk) "chk"))
          _
          (wrap-Spends (watched w) _ (kept w) _ _
            (gate_apply-Spends env.prints instance_ g (keeper chk) "chk"))
          (λ applied. weaken-Spends (watched w) _ _ _ _ (omega arith) (after_chk-Spends applied.0))

    after_gate-Holds : Holds w (
        get_chi instance_.name >>= λ answer.
        lift (or_wait "waiting for Altinity operator to provision ClickHouseInstallation" answer)
        >>= after_chi env instance_)
    after_gate-Holds =
        >>=-Keeps (watched w) (get_chi instance_.name) _ (record { keeps = λ api h. refl })
          (λ answer.
            >>=-Keeps (watched w)
              (lift (
                or_wait "waiting for Altinity operator to provision ClickHouseInstallation" answer))
              _ (lift-Keeps (watched w) _) (λ current. after_chi-Holds w env instance_ current))

    pub apply_and_wait_for_chi-Spends :
        (g : RolloutGate) (chi : Chi)
        → Spends
            (watched w)
            (cost w (clickhouse chi) + room w g.approved + 0)
            nothing
            (apply_and_wait_for_chi env instance_ g chi)
    unfolding apply_and_wait_for_chi
    apply_and_wait_for_chi-Spends g chi =
        >>=-Spends (watched w) _ 0 (kept w) _
          (wrap "apply ClickHouseInstallation"
            (gate_apply env.prints instance_ g (clickhouse chi) "chi"))
          _
          (wrap-Spends (watched w) _ (kept w) _ _
            (gate_apply-Spends env.prints instance_ g (clickhouse chi) "chi"))
          (λ applied. free (watched w) _ _ after_gate-Holds)
