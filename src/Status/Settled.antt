-- ===== src/Status/Settled.antt =====
-- Status of an Instance that Sync does not wait for: it reports Ready.
use provider_altinity_clickh.Prelude.{
  ◌≡◌, refl, ap, ◌∙◌, Bool, true, false, not, Option, none, some, ◌∷◌, arith, if◌then◌else◌,
}
use provider_altinity_clickh.Prelude.Result.{ok}
use provider_altinity_clickh.Operator.{Chi, Chk}
use provider_altinity_clickh.Instance.{Instance, is_replicated_topology}
use provider_altinity_clickh.Cluster.{
  Api, History, found, read, chi_kind, optional_result, pure, lift, ◌>>=◌,
}
use provider_altinity_clickh.Cluster.Inversion.{>>=-eq-ok}
use provider_altinity_clickh.Connection.{Urls, ConnectionDetails}
use provider_altinity_clickh.Tls
use provider_altinity_clickh.Tls.{keeper_cr_name}
use provider_altinity_clickh.Tls.Resources.{server_certificate_issued}
use provider_altinity_clickh.Status.{
  Status, ready, installation_status, in_progress, keeper_status, replicated_status, or_else,
  certificate_status, ready_status, reduced_chi, reduced_chk, served_details, status_of,
  wait_for_chi, wait_for_chk,
}
use provider_altinity_clickh.Status.Waits.{wait_for_chi_iff, wait_for_chk_iff}
use provider_altinity_clickh.Status.Stages.{ready_phase}

module _ (instance_ : Instance) (api : Api) where
  -- The CHK that is found whenever it is read is one that Sync does not wait for.
  abbrev pub KeeperServes : Type 0
  KeeperServes =
      is_replicated_topology instance_ ≡ true
      → (g : History)
      → (chk : Chk) × (api.read_chk g (keeper_cr_name instance_.name) ≡ found chk)
        × (wait_for_chk chk ≡ ok tt)

  abbrev pub CertificateServes : Type 0
  CertificateServes =
      Tls.tls_enabled instance_ ≡ true
      → (g : History) → (server_certificate_issued instance_ api g).0 ≡ ok true

  module _ (conn : Option ConnectionDetails) where
    keeper_settled :
        (asked : Bool) (h : History) (st : Option Status)
        → (asked ≡ true
            → (g : History)
            → (chk : Chk) × (api.read_chk g (keeper_cr_name instance_.name) ≡ found chk)
              × (wait_for_chk chk ≡ ok tt))
        → ((if asked then replicated_status instance_ conn else pure none) api h).0 ≡ ok st
        → st ≡ none
    unfolding replicated_status reduced_chk
    keeper_settled false h st serves e = ground arith
    keeper_settled true h st serves e =
        let (chk, live, done) = serves refl h in
        let settled = (wait_for_chk_iff chk (in_progress conn)).0 done in ground arith

    keeper_status-settled :
        (h : History) (st : Option Status)
        → KeeperServes
        → (keeper_status instance_ conn api h).0 ≡ ok st
        → st ≡ none
    unfolding keeper_status
    keeper_status-settled h st serves e =
        keeper_settled (is_replicated_topology instance_) h st serves e

  module _ (urls : Urls) (chi : Option Chi) (conn : Option ConnectionDetails) where
    issued_settled :
        (issued : Bool) (h h' : History) (st : Status)
        → issued ≡ true
        → (if issued
              then ready_status urls instance_ chi
              else pure (in_progress conn "Waiting for the TLS certificate"))
            api h
          ≡ (ok st, h')
        → st.phase ≡ ready
    issued_settled true h h' st yes_ e = ready_phase urls instance_ chi conn api h h' st e
    issued_settled false h h' st yes_ e = ground arith

    certificate_settled :
        (enabled : Bool) (h h' : History) (st : Status)
        → (enabled ≡ true → (g : History) → (server_certificate_issued instance_ api g).0 ≡ ok true)
        → (if not enabled
              then ready_status urls instance_ chi
              else (server_certificate_issued instance_ >>= λ issued.
                  if issued
                  then ready_status urls instance_ chi
                  else pure (in_progress conn "Waiting for the TLS certificate")))
            api h
          ≡ (ok st, h')
        → st.phase ≡ ready
    certificate_settled false h h' st serves e = ready_phase urls instance_ chi conn api h h' st e
    certificate_settled true h h' st serves e =
        let (issued, e1, e2) = >>=-eq-ok (server_certificate_issued instance_) _ api h h' st e in
        let found_ = serves refl h in
        issued_settled issued (server_certificate_issued instance_ api h).1 h' st (ground arith) e2

    stages_settled :
        (keeper installed : Option Status) (h h' : History) (st : Status)
        → keeper ≡ none
        → installed ≡ none
        → CertificateServes
        → or_else keeper (or_else installed (certificate_status urls instance_ chi conn)) api h
          ≡ (ok st, h')
        → st.phase ≡ ready
    unfolding or_else certificate_status
    stages_settled none none h h' st k i serves e =
        certificate_settled (Tls.tls_enabled instance_) h h' st serves e
    stages_settled none (some x) h h' st k i serves e = ground arith
    stages_settled (some x) installed h h' st k i serves e = ground arith

-- If the CHI and, in the replicated topology, every CHK that is read are ones that Sync does not wait
-- for, and with TLS the certificate is issued, a status that is reported is Ready.
pub status_of_settled :
    (urls : Urls) (instance_ : Instance) (api : Api) (h h' : History) (st : Status) (chi : Chi)
    → api.read_chi h instance_.name ≡ found chi
    → wait_for_chi chi ≡ ok tt
    → KeeperServes instance_ api
    → CertificateServes instance_ api
    → status_of urls instance_ api h ≡ (ok st, h')
    → st.phase ≡ ready
unfolding status_of reduced_chi
status_of_settled urls instance_ api h h' st chi live done keeper_serves serves e =
    let g = read chi_kind instance_.name ∷ h in
    let (chi', e1, r1) =
      >>=-eq-ok (lift (optional_result instance_.name (api.read_chi h instance_.name))) _ api g h'
        st e in
    let same : chi' ≡ some chi = ground arith in
    let (conn, e2, r2) = >>=-eq-ok (served_details urls instance_ chi') _ api g h' st r1 in
    let g2 = (served_details urls instance_ chi' api g).1 in
    let (keeper, e3, r3) = >>=-eq-ok (keeper_status instance_ conn) _ api g2 h' st r2 in
    let settled = (wait_for_chi_iff chi (in_progress conn)).0 done in
    stages_settled instance_ api urls chi' conn keeper
      (installation_status (reduced_chi chi') (in_progress conn))
      (keeper_status instance_ conn api g2).1 h' st
      (keeper_status-settled instance_ api conn g2 keeper keeper_serves e3)
      (ap (λ o. installation_status (reduced_chi o) (in_progress conn)) same ∙ settled) serves r3
