-- ===== src/Cleanup/Order.antt =====
-- The order in which an Instance is taken down: ClickHouse, then Keeper, then the volume claims.
use provider_altinity_clickh.Prelude.{
  ◌≡◌, ◌≢◌, refl, ap, String, Bool, true, false, arith, if◌then◌else◌,
}
use provider_altinity_clickh.Prelude.Result.{ok}
use provider_altinity_clickh.Instance.{Instance, is_replicated_topology}
use provider_altinity_clickh.Cluster.{
  chi_kind, chk_kind, secret_kind, History, Api, Read, found, missing, failed, pure, wrap, delete,
}
use provider_altinity_clickh.Cluster.Inversion.{>>=-eq-ok}
use provider_altinity_clickh.Cluster.Effects.{
  count, if-Keeps, Keeps-KeepsOn, >>=-KeepsOn, failing-KeepsOn,
}
use provider_altinity_clickh.Monitoring.{delete_pod_monitor}
use provider_altinity_clickh.Tls.{keeper_cr_name}
use provider_altinity_clickh.Tls.Resources.{delete_tls_resources}
use provider_altinity_clickh.Rollout.{credentials_secret_name, rollout_state_name}
use provider_altinity_clickh.Cleanup.{
  still_there, sync_reclaim_policy, delete_clickhouse, delete_keeper, cleanup,
}
use provider_altinity_clickh.Cleanup.Volumes.{
  claims, keeper_and_claims, late, sync_reclaim_policy-Keeps, delete_clickhouse-Keeps,
  delete_keeper-Keeps,
}

still_there-ok :
    {A : Type 0} (name : String) (answer : Read A)
    → still_there name answer ≡ ok tt
    → answer ≡ missing
unfolding still_there
still_there-ok name (found a) e = ground arith
still_there-ok name missing e = refl
still_there-ok name (failed x) e = ground arith

module _ (instance_ : Instance) (api : Api) where
  -- Going on after ClickHouse takes a read that finds no CHI.
  pub delete_clickhouse-ok :
      (h h' : History)
      → delete_clickhouse instance_ api h ≡ (ok tt, h')
      → (g : History) × (api.read_chi g instance_.name ≡ missing)
  unfolding delete_clickhouse
  delete_clickhouse-ok h h' e =
      let deleting = wrap "delete ClickHouseInstallation" (delete chi_kind instance_.name) in
      let (x1, e1, r1) = >>=-eq-ok deleting _ api h h' tt e in
      let h1 = (deleting api h).1 in
      let (x2, e2, r2) = >>=-eq-ok (delete_pod_monitor instance_) _ api h1 h' tt r1 in
      let h2 = (delete_pod_monitor instance_ api h1).1 in
      let credentials =
        wrap "delete credentials secret"
          (delete secret_kind (credentials_secret_name instance_.name)) in
      let (x3, e3, r3) = >>=-eq-ok credentials _ api h2 h' tt r2 in
      let h3 = (credentials api h2).1 in
      let state =
        wrap "delete rollout state secret"
          (delete secret_kind (rollout_state_name instance_.name)) in
      let (x4, e4, r4) = >>=-eq-ok state _ api h3 h' tt r3 in
      let h4 = (state api h3).1 in
      let (x5, e5, r5) = >>=-eq-ok (delete_tls_resources instance_) _ api h4 h' tt r4 in
      let h5 = (delete_tls_resources instance_ api h4).1 in
      (h5, still_there-ok instance_.name (api.read_chi h5 instance_.name) (ground arith))

  pub delete_keeper-ok :
      (h h' : History)
      → delete_keeper instance_ api h ≡ (ok tt, h')
      → (g : History) × (api.read_chk g (keeper_cr_name instance_.name) ≡ missing)
  unfolding delete_keeper
  delete_keeper-ok h h' e =
      let deleting =
        wrap "delete ClickHouseKeeperInstallation"
          (delete chk_kind (keeper_cr_name instance_.name)) in
      let (x1, e1, r1) = >>=-eq-ok deleting _ api h h' tt e in
      let h1 = (deleting api h).1 in
      (
        h1,
        still_there-ok (keeper_cr_name instance_.name)
            (api.read_chk h1 (keeper_cr_name instance_.name)) (ground arith),
      )

  delete_clickhouse_fails :
      ((g : History) → api.read_chi g instance_.name ≢ missing)
      → (h : History) (a : Unit {0}) → (delete_clickhouse instance_ api h).0 ≢ ok a
  delete_clickhouse_fails present h a e =
      let r = delete_clickhouse instance_ api h in
      let (g, gone) = delete_clickhouse-ok h r.1 (ap (λ x. (x, r.1)) e) in present g gone

  delete_keeper_fails :
      (replicated : Bool)
      → replicated ≡ true
      → ((g : History) → api.read_chk g (keeper_cr_name instance_.name) ≢ missing)
      → (h : History) (a : Unit {0})
      → ((if replicated then delete_keeper instance_ else pure tt) api h).0 ≢ ok a
  delete_keeper_fails true is_true present h a e =
      let r = delete_keeper instance_ api h in
      let (g, gone) = delete_keeper-ok h r.1 (ap (λ x. (x, r.1)) e) in present g gone
  delete_keeper_fails false is_true present h a e = ground arith

-- As long as no read of the CHI reports it gone, Cleanup deletes neither the CHK nor a volume claim,
-- and does not succeed, whatever else the API answers.
pub cleanup-waits_for_clickhouse :
    (instance_ : Instance) (api : Api) (h : History)
    → ((g : History) → api.read_chi g instance_.name ≢ missing)
    → let r = cleanup instance_ api h in
      (count (late keeper_and_claims) r.1 ≡ count (late keeper_and_claims) h) × (r.0 ≢ ok tt)
unfolding cleanup
cleanup-waits_for_clickhouse instance_ api h present = (
  (>>=-KeepsOn (late keeper_and_claims) api (sync_reclaim_policy instance_) _
        (Keeps-KeepsOn (late keeper_and_claims) api _
          (sync_reclaim_policy-Keeps keeper_and_claims instance_))
        (λ synced.
          failing-KeepsOn (late keeper_and_claims) api (delete_clickhouse instance_) _
            (delete_clickhouse_fails instance_ api present)
            (Keeps-KeepsOn (late keeper_and_claims) api _
              (delete_clickhouse-Keeps keeper_and_claims instance_)))).keeps
      h,
  λ e.
      let r = cleanup instance_ api h in
      let (x1, e1, r1) =
        >>=-eq-ok (sync_reclaim_policy instance_) _ api h r.1 tt (ap (λ x. (x, r.1)) e) in
      let h1 = (sync_reclaim_policy instance_ api h).1 in
      let (x2, e2, r2) = >>=-eq-ok (delete_clickhouse instance_) _ api h1 r.1 tt r1 in
      delete_clickhouse_fails instance_ api present h1 x2 e2,
)

-- In the replicated topology, as long as no read of the CHK reports it gone, Cleanup deletes no
-- volume claim, and does not succeed, whatever the reclaim policy is and the API answers else.
pub cleanup-waits_for_keeper :
    (instance_ : Instance) (api : Api) (h : History)
    → is_replicated_topology instance_ ≡ true
    → ((g : History) → api.read_chk g (keeper_cr_name instance_.name) ≢ missing)
    → let r = cleanup instance_ api h in
      (count (late claims) r.1 ≡ count (late claims) h) × (r.0 ≢ ok tt)
unfolding cleanup
cleanup-waits_for_keeper instance_ api h replicated present =
    let waiting = if is_replicated_topology instance_ then delete_keeper instance_ else pure tt in
    (
      (>>=-KeepsOn (late claims) api (sync_reclaim_policy instance_) _
            (Keeps-KeepsOn (late claims) api _ (sync_reclaim_policy-Keeps claims instance_))
            (λ synced.
              >>=-KeepsOn (late claims) api (delete_clickhouse instance_) _
                (Keeps-KeepsOn (late claims) api _ (delete_clickhouse-Keeps claims instance_))
                (λ gone.
                  failing-KeepsOn (late claims) api waiting _
                    (delete_keeper_fails instance_ api (is_replicated_topology instance_) replicated
                      present)
                    (Keeps-KeepsOn (late claims) api _ (
                      if-Keeps (late claims) (is_replicated_topology instance_) _ _
                        (delete_keeper-Keeps instance_)
                        (record { keeps = λ api h. refl })))))).keeps
          h,
      λ e.
          let r = cleanup instance_ api h in
          let (x1, e1, r1) =
            >>=-eq-ok (sync_reclaim_policy instance_) _ api h r.1 tt (ap (λ x. (x, r.1)) e) in
          let h1 = (sync_reclaim_policy instance_ api h).1 in
          let (x2, e2, r2) = >>=-eq-ok (delete_clickhouse instance_) _ api h1 r.1 tt r1 in
          let h2 = (delete_clickhouse instance_ api h1).1 in
          let (x3, e3, r3) = >>=-eq-ok waiting _ api h2 r.1 tt r2 in
          delete_keeper_fails instance_ api (is_replicated_topology instance_) replicated present h2
            x3 e3,
    )
