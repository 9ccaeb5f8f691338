-- ===== src/Sync/Done.antt =====
-- A Sync that is done, and what Status reports after it.
use provider_altinity_clickh.Prelude.{
  ◌≡◌, refl, ap, ◌∙◌, Bool, true, false, [], ◌∷◌, arith, if◌then◌else◌,
}
use provider_altinity_clickh.Prelude.Result.{Result, ok, err, wait}
use provider_altinity_clickh.Operator.{Chi, Chk}
use provider_altinity_clickh.Instance.{Instance, is_replicated_topology}
use provider_altinity_clickh.Cluster.{
  Api, History, Read, found, missing, failed, read, chi_kind, pure, lift, raise, wrap, ◌>>=◌,
}
use provider_altinity_clickh.Cluster.Inversion.{>>=-eq-ok}
use provider_altinity_clickh.Rollout.{RolloutGate, clickhouse, gate_apply, new_rollout_gate, keeper}
use provider_altinity_clickh.Credentials.{ensure_credentials}
use provider_altinity_clickh.Keeper.Live.{plan_keeper_wiring}
use provider_altinity_clickh.Tls
use provider_altinity_clickh.Tls.{keeper_cr_name, server_secret_name}
use provider_altinity_clickh.Tls.Resources.{
  ensure_tls, ensure_issuer, ensure_server_certificate, issuer_override, server_certificate_issued,
}
use provider_altinity_clickh.Tls.{tls_parameters}
use provider_altinity_clickh.NetPol.{reconcile_plaintext_policy}
use provider_altinity_clickh.Monitoring.{reconcile_pod_monitor}
use provider_altinity_clickh.Render.Chi.{build_chi}
use provider_altinity_clickh.Status.{Status, ready, status_of, wait_for_chi, wait_for_chk}
use provider_altinity_clickh.Status.Settled.{status_of_settled}
use provider_altinity_clickh.Sync.{
  Surroundings, or_wait, build_both, apply_and_wait_for_chk, apply_and_wait_for_chi,
  sync_replicated, sync_standalone, sync_topology, sync_resources, sync, publish,
}
use provider_altinity_clickh.Sync.Finishing.{after_chi}
use provider_altinity_clickh.Sync.Holding.{apply_and_wait_for_chk-ok}

module _ (instance_ : Instance) (api : Api) where
  abbrev ChiServes : Type 0
  ChiServes =
      (g : History) × (chi : Chi) × (api.read_chi g instance_.name ≡ found chi)
      × (wait_for_chi chi ≡ ok tt)

  abbrev ChkServes : Type 0
  ChkServes =
      (g : History) × (chk : Chk) × (api.read_chk g (keeper_cr_name instance_.name) ≡ found chk)
      × (wait_for_chk chk ≡ ok tt)

after_chi-ok :
    (env : Surroundings) (instance_ : Instance) (current : Chi) (api : Api) (h h' : History)
    → after_chi env instance_ current api h ≡ (ok tt, h')
    → wait_for_chi current ≡ ok tt
after_chi-ok env instance_ current api h h' e =
    let (x, e1, r1) =
      >>=-eq-ok (reconcile_plaintext_policy env.environment instance_ current) _ api h h' tt e in
    let (y, e2, r2) =
      >>=-eq-ok (lift (wait_for_chi current)) _ api
        (reconcile_plaintext_policy env.environment instance_ current api h).1 h' tt r1 in
    e2

waited-ok :
    (env : Surroundings) (instance_ : Instance) (answer : Read Chi) (api : Api) (h h' : History)
    → (lift (or_wait "waiting for Altinity operator to provision ClickHouseInstallation" answer)
          >>= after_chi env instance_)
        api h
      ≡ (ok tt, h')
    → (current : Chi) × (answer ≡ found current) × (wait_for_chi current ≡ ok tt)
waited-ok env instance_ (found chi) api h h' e =
    (chi, refl, after_chi-ok env instance_ chi api h h' e)
waited-ok env instance_ missing api h h' e = ground arith
waited-ok env instance_ (failed x) api h h' e = ground arith

module _ (env : Surroundings) (instance_ : Instance) (api : Api) where
  apply_and_wait_for_chi-ok :
      (gate : RolloutGate) (chi : Chi) (h h' : History)
      → apply_and_wait_for_chi env instance_ gate chi api h ≡ (ok tt, h')
      → ChiServes instance_ api
  unfolding apply_and_wait_for_chi
  apply_and_wait_for_chi-ok gate chi h h' e =
      let asked =
        wrap "apply ClickHouseInstallation"
          (gate_apply env.prints instance_ gate (clickhouse chi) "chi") in
      let (applied, e1, r1) = >>=-eq-ok asked _ api h h' tt e in
      let g = (asked api h).1 in
      let (current, live, done) =
        waited-ok env instance_ (api.read_chi g instance_.name) api
          (read chi_kind instance_.name ∷ g) h' r1 in
      (g, current, live, done)

  sync_standalone-ok :
      (h h' : History) → sync_standalone env instance_ api h ≡ (ok tt, h') → ChiServes instance_ api
  unfolding sync_standalone
  sync_standalone-ok h h' e =
      let built = wrap "build ClickHouseInstallation" (build_chi env.runtime instance_ 1) in
      let (chi, e1, r1) = >>=-eq-ok built _ api h h' tt e in
      let h1 = (built api h).1 in
      let gating = new_rollout_gate env.prints instance_ (clickhouse chi ∷ []) in
      let (gate, e2, r2) = >>=-eq-ok gating _ api h1 h' tt r1 in
      apply_and_wait_for_chi-ok gate chi (gating api h1).1 h' r2

  sync_replicated-ok :
      (h h' : History)
      → sync_replicated env instance_ api h ≡ (ok tt, h')
      → ChiServes instance_ api × ChkServes instance_ api
  unfolding sync_replicated
  sync_replicated-ok h h' e =
      let (plan, e1, r1) = >>=-eq-ok (plan_keeper_wiring instance_) _ api h h' tt e in
      let h1 = (plan_keeper_wiring instance_ api h).1 in
      let (desired, e2, r2) = >>=-eq-ok (build_both env instance_ plan.0) _ api h1 h' tt r1 in
      let h2 = (build_both env instance_ plan.0 api h1).1 in
      let (target, e3, r3) = >>=-eq-ok (build_both env instance_ plan.1) _ api h2 h' tt r2 in
      let h3 = (build_both env instance_ plan.1 api h2).1 in
      let gating =
        new_rollout_gate env.prints instance_ (keeper target.0 ∷ clickhouse target.1 ∷ []) in
      let (gate, e4, r4) = >>=-eq-ok gating _ api h3 h' tt r3 in
      let h4 = (gating api h3).1 in
      let waiting = apply_and_wait_for_chk env instance_ gate desired.0 in
      let (gate', e5, r5) = >>=-eq-ok waiting _ api h4 h' tt r4 in
      let h5 = (waiting api h4).1 in
      let applying = apply_and_wait_for_chi env instance_ gate' desired.1 in
      let (done, e6, r6) = >>=-eq-ok applying _ api h5 h' tt r5 in
      (
        apply_and_wait_for_chi-ok gate' desired.1 h5 (applying api h5).1
            (ap (λ r. (r, (applying api h5).1)) e6),
        apply_and_wait_for_chk-ok env instance_ gate desired.0 api h4 h5 gate'
            (ap (λ r. (r, h5)) e5),
      )

  topology-ok :
      (replicated : Bool) (h h' : History)
      → (if replicated then sync_replicated env instance_ else sync_standalone env instance_) api h
        ≡ (ok tt, h')
      → ChiServes instance_ api × (replicated ≡ true → ChkServes instance_ api)
  topology-ok true h h' e = let (chi, chk) = sync_replicated-ok h h' e in (chi, λ is_true. chk)
  topology-ok false h h' e = (sync_standalone-ok h h' e, λ is_true. ground arith)

  sync_topology-ok :
      (h h' : History)
      → sync_topology env instance_ api h ≡ (ok tt, h')
      → ChiServes instance_ api
        × (is_replicated_topology instance_ ≡ true → ChkServes instance_ api)
  unfolding sync_topology
  sync_topology-ok h h' e = topology-ok (is_replicated_topology instance_) h h' e

  issued-ok :
      (g : History) (asked : Result Bool) (h h' : History)
      → (server_certificate_issued instance_ api g).0 ≡ asked
      → (lift asked >>= λ issued.
            if issued
            then pure tt
            else raise (wait "waiting for cert-manager to issue the server certificate" 15))
          api h
        ≡ (ok tt, h')
      → (server_certificate_issued instance_ api g).0 ≡ ok true
  issued-ok g (ok true) h h' same e = same
  issued-ok g (ok false) h h' same e = ground arith
  issued-ok g (err x) h h' same e = ground arith

  pub ensure_tls-ok :
      (h h' : History)
      → ensure_tls instance_ api h ≡ (ok tt, h')
      → (g : History) × ((server_certificate_issued instance_ api g).0 ≡ ok true)
  unfolding ensure_tls
  ensure_tls-ok h h' e =
      let issuing = ensure_issuer instance_ (issuer_override (tls_parameters instance_)) in
      let (issuer_ref, e1, r1) = >>=-eq-ok issuing _ api h h' tt e in
      let h1 = (issuing api h).1 in
      let ensuring = ensure_server_certificate instance_ issuer_ref in
      let (done, e2, r2) = >>=-eq-ok ensuring _ api h1 h' tt r1 in
      let g = (ensuring api h1).1 in
      let asked = server_certificate_issued instance_ api g in
      (g, issued-ok g asked.0 asked.1 h' refl r2)

  certificate-ok :
      (enabled : Bool) (h h' : History)
      → (if enabled then ensure_tls instance_ else pure tt) api h ≡ (ok tt, h')
      → enabled ≡ true
      → (g : History) × ((server_certificate_issued instance_ api g).0 ≡ ok true)
  certificate-ok true h h' e is_true = ensure_tls-ok h h' e
  certificate-ok false h h' e is_true = ground arith

  abbrev Finished : Type 0
  Finished =
      ChiServes instance_ api
      × (is_replicated_topology instance_ ≡ true → ChkServes instance_ api)
      × (Tls.tls_enabled instance_ ≡ true
          → (g : History) × ((server_certificate_issued instance_ api g).0 ≡ ok true))

  sync_resources-ok : (h h' : History) → sync_resources env instance_ api h ≡ (ok tt, h') → Finished
  unfolding sync_resources
  sync_resources-ok h h' e =
      let ensuring = wrap "ensure credentials" (ensure_credentials env.crypto instance_) in
      let (stored, e1, r1) = >>=-eq-ok ensuring _ api h h' tt e in
      let h1 = (ensuring api h).1 in
      let securing = if Tls.tls_enabled instance_ then ensure_tls instance_ else pure tt in
      let (secured, e2, r2) = >>=-eq-ok securing _ api h1 h' tt r1 in
      let h2 = (securing api h1).1 in
      let topology = sync_topology env instance_ in
      let h3 = (topology api h2).1 in
      let monitoring = reconcile_pod_monitor instance_ in
      let (monitored, e3, r3) = >>=-eq-ok monitoring _ api h3 h' tt r2 in
      let (chi, chk) = sync_topology-ok h2 h3 (ground arith) in
      (chi, chk, certificate-ok (Tls.tls_enabled instance_) h1 h2 (ap (λ r. (r, h2)) e2))

  sync-ok : (h h' : History) → sync env instance_ api h ≡ (ok tt, h') → Finished
  unfolding sync
  sync-ok h h' e =
      let synced = sync_resources env instance_ api h in
      let publishing = publish env instance_ synced.0 in
      let (published, e1, r1) = >>=-eq-ok publishing _ api synced.1 h' tt e in
      sync_resources-ok h synced.1 (ground arith)

-- A cluster in which the objects that Status reads answer the same whenever they are read.
pub record IsQuiet (instance_ : Instance) (api : Api) : Type 0 where
  pub same_chi : (g h : History) → api.read_chi g instance_.name ≡ api.read_chi h instance_.name
  pub same_chk :
      (g h : History)
      → api.read_chk g (keeper_cr_name instance_.name)
        ≡ api.read_chk h (keeper_cr_name instance_.name)
  pub same_certificate :
      (g h : History)
      → api.read_secret g (server_secret_name instance_.name)
        ≡ api.read_secret h (server_secret_name instance_.name)

issued_quiet :
    (instance_ : Instance) (api : Api) (g h : History)
    → api.read_secret g (server_secret_name instance_.name)
      ≡ api.read_secret h (server_secret_name instance_.name)
    → (server_certificate_issued instance_ api g).0 ≡ (server_certificate_issued instance_ api h).0
unfolding server_certificate_issued
issued_quiet instance_ api g h same = rw same (ground arith)

-- In a quiet cluster, once a Sync is done, without an error and without a wait, every status that
-- is reported is Ready.
pub sync-Ready :
    (env : Surroundings) (instance_ : Instance) (api : Api) (h h' g g' : History) (st : Status)
    → IsQuiet instance_ api
    → sync env instance_ api h ≡ (ok tt, h')
    → status_of env.urls instance_ api g ≡ (ok st, g')
    → st.phase ≡ ready
sync-Ready env instance_ api h h' g g' st quiet done reported =
    let ((h1, chi, live, chi_done), chk, certificate) = sync-ok env instance_ api h h' done in
    status_of_settled env.urls instance_ api g g' st chi (quiet.same_chi g h1 ∙ live) chi_done
      (λ replicated k.
        let (h2, keeper_, keeper_live, keeper_done) = chk replicated in
        (keeper_, quiet.same_chk k h2 ∙ keeper_live, keeper_done))
      (λ enabled k.
        let (h3, issued) = certificate enabled in
        issued_quiet instance_ api k h3 (quiet.same_certificate k h3) ∙ issued)
      reported
