-- ===== src/Status/Examples.antt =====
-- The status of a reconciled Instance.
use provider_altinity_clickh.Prelude.{◌≡◌, refl, ◌≢◌, ◌⊎◌, true, false, none, [], ◌∷◌}
use provider_altinity_clickh.Prelude.Text.{equal_fold}
use provider_altinity_clickh.Prelude.Result.{Result, ok, err}
use provider_altinity_clickh.Operator.{Chi, Chk}
use provider_altinity_clickh.Instance.{is_replicated_topology}
use provider_altinity_clickh.Cluster.{History, found}
use provider_altinity_clickh.Cluster.Secret.{Data, get, lookup, value_or_empty}
use provider_altinity_clickh.Rollout.{rolled_out}
use provider_altinity_clickh.Connection.{
  Urls, build_connection_details, add_ca_cert, read_ca_cert, read_credentials, secret_data,
  connection_details,
}
use provider_altinity_clickh.Status.{
  Status, provisioning, updating, ready, served_details, keeper_status, replicated_status,
  certificate_status, ready_status, or_else, reduced_chi, reduced_chk, reduced, reduced_state,
  absent, installation_status, status_of, in_progress, chi_installation, chk_installation,
  wait_for_chi, wait_for_chk,
}
use provider_altinity_clickh.Status.Phases.{status_of_ready, status_of_phase}
use provider_altinity_clickh.Tls.{keeper_cr_name, tls_enabled, tls_parameters, is_enabled}
use provider_altinity_clickh.Tls.Resources.{server_certificate_issued, has_certificate}
use provider_altinity_clickh.Examples.Data.{shop, shop_chi, cluster}

abbrev urls : Urls
urls = record {
  uri = λ scheme username password host path. host;
  join_host_port = λ host port. host;
}

abbrev issued : Data
issued = ("tls.crt", "certificate") ∷ ("ca.crt", "authority") ∷ []

abbrev reported : Result Status → Status
reported (ok st) = st
reported (err e) = in_progress none ""

-- What Status reports of this cluster, and the calls that it made.
abbrev outcome : Status × History
outcome = let r = status_of urls shop (cluster issued) [] in (reported r.0, r.1)

outcome_is : status_of urls shop (cluster issued) [] ≡ (ok outcome.0, outcome.1)
unfolding status_of served_details keeper_status replicated_status certificate_status ready_status
    or_else installation_status reduced_chi reduced_chk chi_installation chk_installation reduced
    reduced_state in_progress absent rolled_out server_certificate_issued has_certificate get lookup
    value_or_empty build_connection_details add_ca_cert read_ca_cert read_credentials secret_data
    connection_details tls_enabled tls_parameters is_enabled equal_fold
outcome_is = refl

outcome_ready : outcome.0.phase ≡ ready
unfolding status_of served_details keeper_status replicated_status certificate_status ready_status
    or_else installation_status reduced_chi reduced_chk chi_installation chk_installation reduced
    reduced_state in_progress absent rolled_out server_certificate_issued has_certificate get lookup
    value_or_empty build_connection_details add_ca_cert read_ca_cert read_credentials secret_data
    connection_details tls_enabled tls_parameters is_enabled equal_fold
outcome_ready = refl

status_of_ready_example :
    ((chi : Chi) × ((cluster issued).read_chi [] shop.name ≡ found chi)
      × (wait_for_chi chi ≡ ok tt))
    × ((is_replicated_topology shop ≡ false)
        ⊎ ((g : History) × (chk : Chk) × ((cluster issued).read_chk g (keeper_cr_name shop.name)
              ≡ found chk)
            × (wait_for_chk chk ≡ ok tt)))
    × ((tls_enabled shop ≡ false)
        ⊎ ((g : History) × ((server_certificate_issued shop (cluster issued) g).0 ≡ ok true)))
status_of_ready_example =
    status_of_ready urls shop (cluster issued) [] outcome.1 outcome.0 outcome_is outcome_ready

status_of_phase_example :
    (((chi_installation shop_chi).completed_before ≡ true) × (outcome.0.phase ≢ provisioning))
    ⊎ (((chi_installation shop_chi).completed_before ≡ false) × (outcome.0.phase ≢ updating))
status_of_phase_example =
    status_of_phase urls shop (cluster issued) [] outcome.1 shop_chi outcome.0 refl outcome_is
