-- ===== src/Status/Phases.antt =====
-- The phase that Status reports, over every answer of the cluster.
use provider_altinity_clickh.Prelude.{
  ◌≡◌, refl, ap, ◌∙◌, sym, ◌≢◌, ◌↔◌, ◌⊎◌, inl, inr, Bool, true, false, not, Option, none, some, ◌∷◌,
  arith, if◌then◌else◌,
}
use provider_altinity_clickh.Prelude.Result.{ok}
use provider_altinity_clickh.Operator.{Chi, Chk}
use provider_altinity_clickh.Instance.{Instance, is_replicated_topology}
use provider_altinity_clickh.Cluster.{
  Api, History, found, optional_result, Exec, read, chi_kind, pure, lift, ◌>>=◌,
}
use provider_altinity_clickh.Cluster.Inversion.{>>=-eq-ok}
use provider_altinity_clickh.Connection.{Urls, ConnectionDetails}
use provider_altinity_clickh.Tls
use provider_altinity_clickh.Tls.{keeper_cr_name}
use provider_altinity_clickh.Tls.Resources.{server_certificate_issued}
use provider_altinity_clickh.Status.{
  Status, provisioning, updating, ready, status_of, in_progress, chi_installation, keeper_status,
  served_details, reduced_chi, wait_for_chi, wait_for_chk,
}
use provider_altinity_clickh.Status.Stages.{
  Pending, optional_result-found, keeper_done, keeper_status-Pending, installations_cases, ChiDone,
  KeeperDone, Issued,
}

-- What Status read before it reports `st`: the CHI, and the details of a cluster that serves.
abbrev Reported : Urls → Instance → Api → History → Status → Type 0
Reported urls instance_ api h st =
    (chi : Option Chi) × (conn : Option ConnectionDetails) × (optional_result instance_.name
        (api.read_chi h instance_.name)
      ≡ ok chi)
    × ((served_details urls instance_ chi api (read chi_kind instance_.name ∷ h)).0 ≡ ok conn)
    × (((st.phase ≡ ready)
          × ChiDone urls instance_ chi conn api
          × KeeperDone urls instance_ chi conn api
          × Issued urls instance_ chi conn api)
        ⊎ Pending conn st)

status_of_cases :
    (urls : Urls) (instance_ : Instance) (api : Api) (h h' : History) (st : Status)
    → status_of urls instance_ api h ≡ (ok st, h')
    → Reported urls instance_ api h st
unfolding status_of
status_of_cases urls instance_ api h h' st e =
    let g = read chi_kind instance_.name ∷ h in
    let (chi, e1, r1) =
      >>=-eq-ok (lift (optional_result instance_.name (api.read_chi h instance_.name))) _ api g h'
        st e in
    let (conn, e2, r2) = >>=-eq-ok (served_details urls instance_ chi) _ api g h' st r1 in
    let g2 = (served_details urls instance_ chi api g).1 in
    let (keeper, e3, r3) = >>=-eq-ok (keeper_status instance_ conn) _ api g2 h' st r2 in
    (
      chi,
      conn,
      e1,
      e2,
      installations_cases urls instance_ chi conn api keeper (keeper_status instance_ conn api g2).1
          h' st
          (λ n replicated.
            let (chk, e4, e5) = keeper_done instance_ conn api g2 (e3 ∙ ap ok n) replicated in
            (g2, chk, e4, e5))
          (λ x is_x. keeper_status-Pending instance_ conn api g2 x (e3 ∙ ap ok is_x)) r3,
    )

Pending-ready : (conn : Option ConnectionDetails) (st : Status) → Pending conn st → st.phase ≢ ready
unfolding in_progress
Pending-ready none st p e = ground arith
Pending-ready (some details) st p e = ground arith

when : {A : Type 0} (b : Bool) → (b ≡ true → A) → (b ≡ false) ⊎ A
when true f = inr (f refl)
when false f = inl refl

-- When Status reports Ready, the CHI was read and Sync does not wait for it; in the replicated
-- topology the CHK was read and Sync does not wait for it; and with TLS the server certificate was
-- issued.
pub status_of_ready :
    (urls : Urls) (instance_ : Instance) (api : Api) (h h' : History) (st : Status)
    → status_of urls instance_ api h ≡ (ok st, h')
    → st.phase ≡ ready
    → ((chi : Chi) × (api.read_chi h instance_.name ≡ found chi) × (wait_for_chi chi ≡ ok tt))
      × ((is_replicated_topology instance_ ≡ false)
          ⊎ ((g : History) × (chk : Chk) × (api.read_chk g (keeper_cr_name instance_.name)
                ≡ found chk)
              × (wait_for_chk chk ≡ ok tt)))
      × ((Tls.tls_enabled instance_ ≡ false)
          ⊎ ((g : History) × ((server_certificate_issued instance_ api g).0 ≡ ok true)))
status_of_ready urls instance_ api h h' st e is_ready =
    let (chi, conn, e1, e2, cases) = status_of_cases urls instance_ api h h' st e in
    elim cases [
      | inl (phase, (live, is_live, done), keeper, issued) ↦ (
        (
          live,
          optional_result-found instance_.name (api.read_chi h instance_.name) live
              (e1 ∙ ap ok is_live),
          done,
        ),
        when (is_replicated_topology instance_) keeper,
        when (Tls.tls_enabled instance_) issued,
      )
      | inr p ↦ elim (Pending-ready conn st p is_ready) [ ]
    ]

-- `next` is what builds the details of a cluster that serves.
served_iff :
    (served : Bool) (next : Exec ConnectionDetails) (api : Api) (h h' : History)
    (conn : Option ConnectionDetails)
    → (if not served then pure none else (next >>= λ details. pure (some details))) api h
      ≡ (ok conn, h')
    → (conn ≢ none) ↔ (served ≡ true)
served_iff false next api h h' conn e = ground arith
served_iff true next api h h' conn e =
    let (details, e1, e2) = >>=-eq-ok next (λ details. pure (some details)) api h h' conn e in
    ground arith

served_details_iff :
    (urls : Urls) (instance_ : Instance) (chi : Chi) (api : Api) (h : History)
    (conn : Option ConnectionDetails)
    → (served_details urls instance_ (some chi) api h).0 ≡ ok conn
    → (conn ≢ none) ↔ ((chi_installation chi).completed_before ≡ true)
unfolding served_details reduced_chi
served_details_iff urls instance_ chi api h conn e =
    let r = served_details urls instance_ (some chi) api h in
    served_iff (chi_installation chi).completed_before _ api h r.1 conn (ap (λ x. (x, r.1)) e)

Pending-served :
    (conn : Option ConnectionDetails) (st : Status) (served : Bool)
    → (conn ≢ none) ↔ (served ≡ true)
    → (st.phase ≡ ready) ⊎ Pending conn st
    → ((served ≡ true) × (st.phase ≢ provisioning)) ⊎ ((served ≡ false) × (st.phase ≢ updating))
unfolding in_progress
Pending-served none st true s p = ground arith
Pending-served none st false s p = inr (refl, ground arith)
Pending-served (some details) st true s p = inl (refl, ground arith)
Pending-served (some details) st false s p = ground arith

-- Status reports an Instance whose CHI the operator has reconciled before never as Provisioning, and
-- one whose CHI it has not reconciled before never as Updating.
pub status_of_phase :
    (urls : Urls) (instance_ : Instance) (api : Api) (h h' : History) (chi : Chi) (st : Status)
    → api.read_chi h instance_.name ≡ found chi
    → status_of urls instance_ api h ≡ (ok st, h')
    → (((chi_installation chi).completed_before ≡ true) × (st.phase ≢ provisioning))
      ⊎ (((chi_installation chi).completed_before ≡ false) × (st.phase ≢ updating))
status_of_phase urls instance_ api h h' chi st read_ e =
    let (live, conn, e1, e2, cases) = status_of_cases urls instance_ api h h' st e in
    let same : live ≡ some chi = ground arith in
    let served = served_details_iff urls instance_ chi api (read chi_kind instance_.name ∷ h) conn (
      sym
        (ap (λ o. (served_details urls instance_ o api (read chi_kind instance_.name ∷ h)).0) same)
      ∙ e2) in
    Pending-served conn st (chi_installation chi).completed_before served
      (elim cases [ inl (phase, done, keeper, issued) ↦ inl phase | inr p ↦ inr p ])
