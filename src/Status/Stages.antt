-- ===== src/Status/Stages.antt =====
-- The stages of Status: Keeper, ClickHouse, then the certificate, and what each of them lets through.
use provider_altinity_clickh.Prelude.{
  ◌≡◌, refl, ◌≢◌, ◌⊎◌, inl, inr, String, Bool, true, false, not, Option, none, some, ◌∷◌, arith,
  if◌then◌else◌,
}
use provider_altinity_clickh.Prelude.Result.{ok}
use provider_altinity_clickh.Operator.{Chi, Chk}
use provider_altinity_clickh.Instance.{Instance, is_replicated_topology, get_or}
use provider_altinity_clickh.Cluster.{
  Api, History, found, missing, failed, Read, optional_result, Exec, read, chk_kind, pure, lift,
  ◌>>=◌,
}
use provider_altinity_clickh.Cluster.Inversion.{>>=-eq-ok}
use provider_altinity_clickh.Connection.{Urls, ConnectionDetails, build_connection_details}
use provider_altinity_clickh.Tls
use provider_altinity_clickh.Tls.{keeper_cr_name}
use provider_altinity_clickh.Tls.Resources.{server_certificate_issued}
use provider_altinity_clickh.Status.{
  Status, Reduced, failed_phase, ready, installation_status, in_progress, failed_status,
  keeper_status, replicated_status, or_else, absent, certificate_status, ready_status, reduced_chi,
  reduced_chk, zero_chi, wait_for_chi, wait_for_chk,
}
use provider_altinity_clickh.Status.Waits.{wait_for_chi_iff, wait_for_chk_iff}

-- What a status other than Ready says of the phase.
abbrev pub Pending : Option ConnectionDetails → Status → Type 0
Pending conn st = (st.phase ≡ failed_phase) ⊎ (st.phase ≡ (in_progress conn "").phase)

in_progress_phase :
    (conn : Option ConnectionDetails) (message : String)
    → (in_progress conn message).phase ≡ (in_progress conn "").phase
unfolding in_progress
in_progress_phase none message = refl
in_progress_phase (some details) message = refl

conditional-Pending :
    (conn : Option ConnectionDetails) (absent completed aborted : Bool) (x y z st : Status)
    → Pending conn x
    → Pending conn y
    → Pending conn z
    → (if absent then some x else if completed then none else if aborted then some y else some z)
      ≡ some st
    → Pending conn st
conditional-Pending conn absent completed aborted x y z st p q r e = ground arith

installation_status-Pending :
    (conn : Option ConnectionDetails) (i : Reduced) (st : Status)
    → installation_status i (in_progress conn) ≡ some st
    → Pending conn st
unfolding installation_status failed_status
installation_status-Pending conn i st e =
    conditional-Pending conn _ _ _ _ _ _ st (inr (in_progress_phase conn _)) (inl refl)
      (inr (in_progress_phase conn _)) e

absent-Pending :
    (component : String) (report : String → Status)
    → installation_status (absent component) report ≢ none
unfolding installation_status absent
absent-Pending component report e = ground arith

-- A reconciled installation is there, and Sync does not wait for it.
chi_done :
    (chi : Option Chi) (report : String → Status)
    → installation_status (reduced_chi chi) report ≡ none
    → (live : Chi) × (chi ≡ some live) × (wait_for_chi live ≡ ok tt)
unfolding reduced_chi
chi_done none report e = elim (absent-Pending "ClickHouse" report e) [ ]
chi_done (some live) report e = (live, refl, ground (arith, wait_for_chi_iff live report))

chk_done :
    (chk : Option Chk) (report : String → Status)
    → installation_status (reduced_chk chk) report ≡ none
    → (live : Chk) × (chk ≡ some live) × (wait_for_chk live ≡ ok tt)
unfolding reduced_chk
chk_done none report e = elim (absent-Pending "ClickHouse Keeper" report e) [ ]
chk_done (some live) report e = (live, refl, ground (arith, wait_for_chk_iff live report))

pub optional_result-found :
    {A : Type 0} (name : String) (r : Read A) (a : A)
    → optional_result name r ≡ ok (some a)
    → r ≡ found a
optional_result-found name (found b) a e = ground arith
optional_result-found name missing a e = ground arith
optional_result-found name (failed x) a e = ground arith

module _ (instance_ : Instance) (conn : Option ConnectionDetails) (api : Api) where
  keeper_name : String
  keeper_name = keeper_cr_name instance_.name

  report_keeper : Read Chk → Exec (Option Status)
  report_keeper answer = do
    chk ← lift (optional_result (keeper_cr_name instance_.name) answer)
    pure (installation_status (reduced_chk chk) (in_progress conn))

  report_keeper_done :
      (r : Read Chk) (g : History)
      → (report_keeper r api g).0 ≡ ok none
      → (chk : Chk) × (r ≡ found chk) × (wait_for_chk chk ≡ ok tt)
  unfolding report_keeper
  report_keeper_done (found chk) g e =
      let (live, same, done) = chk_done (some chk) (in_progress conn) (ground arith) in
      (live, ground arith, done)
  report_keeper_done missing g e =
      let (live, same, done) = chk_done none (in_progress conn) (ground arith) in
      (live, ground arith, done)
  report_keeper_done (failed x) g e = ground arith

  report_keeper-Pending :
      (r : Read Chk) (g : History) (st : Status)
      → (report_keeper r api g).0 ≡ ok (some st)
      → Pending conn st
  unfolding report_keeper
  report_keeper-Pending (found chk) g st e =
      installation_status-Pending conn (reduced_chk (some chk)) st (ground arith)
  report_keeper-Pending missing g st e =
      installation_status-Pending conn (reduced_chk none) st (ground arith)
  report_keeper-Pending (failed x) g st e = ground arith

  asked_done :
      (asked : Bool) (h : History)
      → ((if asked then replicated_status instance_ conn else pure none) api h).0 ≡ ok none
      → asked ≡ true
      → (chk : Chk) × (api.read_chk h keeper_name ≡ found chk) × (wait_for_chk chk ≡ ok tt)
  unfolding keeper_name replicated_status report_keeper
  asked_done true h e is_asked =
      report_keeper_done (api.read_chk h keeper_name) (read chk_kind keeper_name ∷ h) e
  asked_done false h e is_asked = ground arith

  asked-Pending :
      (asked : Bool) (h : History) (st : Status)
      → ((if asked then replicated_status instance_ conn else pure none) api h).0 ≡ ok (some st)
      → Pending conn st
  unfolding keeper_name replicated_status report_keeper
  asked-Pending true h st e =
      report_keeper-Pending (api.read_chk h keeper_name) (read chk_kind keeper_name ∷ h) st e
  asked-Pending false h st e = ground arith

  -- Without a status of Keeper, a replicated Instance has a reconciled Keeper.
  pub keeper_done :
      (h : History)
      → (keeper_status instance_ conn api h).0 ≡ ok none
      → is_replicated_topology instance_ ≡ true
      → (chk : Chk) × (api.read_chk h (keeper_cr_name instance_.name) ≡ found chk)
        × (wait_for_chk chk ≡ ok tt)
  unfolding keeper_status keeper_name
  keeper_done h e replicated = asked_done (is_replicated_topology instance_) h e replicated

  pub keeper_status-Pending :
      (h : History) (st : Status)
      → (keeper_status instance_ conn api h).0 ≡ ok (some st)
      → Pending conn st
  unfolding keeper_status
  keeper_status-Pending h st e = asked-Pending (is_replicated_topology instance_) h st e

module _ (urls : Urls) (instance_ : Instance) (chi : Option Chi) (conn : Option ConnectionDetails)
    (api : Api) where
  pub ready_phase :
      (h h' : History) (st : Status)
      → ready_status urls instance_ chi api h ≡ (ok st, h')
      → st.phase ≡ ready
  unfolding ready_status
  ready_phase h h' st e =
      let (details, e1, e2) =
        >>=-eq-ok (build_connection_details urls instance_ (get_or chi zero_chi)) _ api h h' st e in
      ground arith

  ready_or_Pending :
      (issued : Bool) (h h' : History) (st : Status)
      → (if issued
            then ready_status urls instance_ chi
            else pure (in_progress conn "Waiting for the TLS certificate"))
          api h
        ≡ (ok st, h')
      → ((issued ≡ true) × (st.phase ≡ ready)) ⊎ Pending conn st
  ready_or_Pending true h h' st e = inl (refl, ready_phase h h' st e)
  ready_or_Pending false h h' st e =
      let p = in_progress_phase conn "Waiting for the TLS certificate" in ground arith

  abbrev pub Issued : Type 0
  Issued =
      Tls.tls_enabled instance_ ≡ true
      → (g : History) × ((server_certificate_issued instance_ api g).0 ≡ ok true)

  enabled_cases :
      (is_enabled_ : Bool) (h h' : History) (st : Status)
      → (if not is_enabled_
            then ready_status urls instance_ chi
            else (server_certificate_issued instance_ >>= λ issued.
                if issued
                then ready_status urls instance_ chi
                else pure (in_progress conn "Waiting for the TLS certificate")))
          api h
        ≡ (ok st, h')
      → ((st.phase ≡ ready)
          × (is_enabled_ ≡ true
              → (g : History) × ((server_certificate_issued instance_ api g).0 ≡ ok true)))
        ⊎ Pending conn st
  enabled_cases false h h' st e = inl (ready_phase h h' st e, λ b. ground arith)
  enabled_cases true h h' st e =
      let (issued, e1, e2) = >>=-eq-ok (server_certificate_issued instance_) _ api h h' st e in
      elim (ready_or_Pending issued (server_certificate_issued instance_ api h).1 h' st e2) [
        | inl (is_issued, is_ready) ↦ inl (is_ready, λ b. (h, ground arith))
        | inr p ↦ inr p
      ]

  certificate_cases :
      (h h' : History) (st : Status)
      → certificate_status urls instance_ chi conn api h ≡ (ok st, h')
      → ((st.phase ≡ ready) × Issued) ⊎ Pending conn st
  unfolding certificate_status
  certificate_cases h h' st e = enabled_cases (Tls.tls_enabled instance_) h h' st e

  or_else-cases :
      (first : Option Status) (next : Exec Status) (h h' : History) (st : Status)
      → or_else first next api h ≡ (ok st, h')
      → (first ≡ some st) ⊎ ((first ≡ none) × (next api h ≡ (ok st, h')))
  unfolding or_else
  or_else-cases none next h h' st e = inr (refl, e)
  or_else-cases (some x) next h h' st e = ground arith

  abbrev pub KeeperDone : Type 0
  KeeperDone =
      is_replicated_topology instance_ ≡ true
      → (g : History) × (chk : Chk) × (api.read_chk g (keeper_cr_name instance_.name) ≡ found chk)
        × (wait_for_chk chk ≡ ok tt)

  abbrev pub ChiDone : Type 0
  ChiDone = (live : Chi) × (chi ≡ some live) × (wait_for_chi live ≡ ok tt)

  pub installations_cases :
      (keeper : Option Status) (h h' : History) (st : Status)
      → (keeper ≡ none → KeeperDone)
      → ((x : Status) → keeper ≡ some x → Pending conn x)
      → or_else keeper
          (or_else
            (installation_status (reduced_chi chi) (in_progress conn))
            (certificate_status urls instance_ chi conn))
          api
          h
        ≡ (ok st, h')
      → ((st.phase ≡ ready) × ChiDone × KeeperDone × Issued) ⊎ Pending conn st
  installations_cases keeper h h' st done pending e = elim (or_else-cases keeper _ h h' st e) [
    | inl is_st ↦ inr (pending st is_st)
    | inr (no_keeper, e1) ↦ elim (or_else-cases _ _ h h' st e1) [
      | inl is_st ↦ inr (installation_status-Pending conn (reduced_chi chi) st is_st)
      | inr (no_chi, e2) ↦ elim (certificate_cases h h' st e2) [
        | inl (is_ready, issued) ↦
            inl (is_ready, chi_done chi (in_progress conn) no_chi, done no_keeper, issued)
        | inr p ↦ inr p
      ]
    ]
  ]
