-- ===== src/Examples/Syncing.antt =====
-- A Sync of the replicated topology before its Keeper exists.
use provider_altinity_clickh.Prelude.Text.{equal_fold}
use provider_altinity_clickh.Prelude.{
  ◌≢◌, ◌+◌, ◌≤◌, ◌≡◌, refl, true, false, String, [], ◌∷◌, arith, eq_iff, none,
}
use provider_altinity_clickh.Prelude.Result.{ok}
use provider_altinity_clickh.Tls.{tls_enabled, client_service_name}
use provider_altinity_clickh.Tls.Resources.{
  server_certificate_issued, service_addresses, ingress_names, ingress_ips,
}
use provider_altinity_clickh.Sync.Effects.{chi_apply, is_chi_apply, watched, maintenance_request}
use provider_altinity_clickh.Sync.Certified.{sync-waits_for_certificate}
use provider_altinity_clickh.Instance.{Instance}
use provider_altinity_clickh.Common.{label_chi_name}
use provider_altinity_clickh.Cluster.Secret.{get, lookup, value_or_empty}
use provider_altinity_clickh.Watches.{
  WatchedService, label_operator_service, updated, load_balancer_address_changed,
  instance_for_client_service,
}
use provider_altinity_clickh.Watches.Addresses.{address_change-reconciles}
use provider_altinity_clickh.Cluster.{Api, LiveService, missing}
use provider_altinity_clickh.Cluster.Effects.{count}
use provider_altinity_clickh.Status.{Status, provisioning}
use provider_altinity_clickh.Sync.{sync, sync_resources, desired_status}
use provider_altinity_clickh.Sync.Once.{sync_once}
use provider_altinity_clickh.Sync.Holding.{sync-holds_clickhouse}
use provider_altinity_clickh.Sync.Reporting.{
  Publishes, ReportsChanges, sync-Publishes, desired_status-unchanged,
}
use provider_altinity_clickh.Examples.Data.{shop, cluster}
use provider_altinity_clickh.Examples.Secrets.{served, stored}
use provider_altinity_clickh.Examples.Environment.{runtime, surroundings}

abbrev no_keeper : Api
no_keeper = record (cluster served) { read_chk = λ h name. missing }

sync-holds_clickhouse_example :
    count is_chi_apply (sync surroundings shop no_keeper []).1 ≡ count is_chi_apply []
sync-holds_clickhouse_example =
    sync-holds_clickhouse surroundings shop no_keeper [] refl (λ h chk live done. ground arith)

sync_once_example :
    count (watched maintenance_request) (sync surroundings shop (cluster served) []).1
    ≤ 1 + count (watched maintenance_request) []
sync_once_example = sync_once surroundings shop (cluster served) [] maintenance_request

-- The Secrets have no certificate yet.
sync-waits_for_certificate_example :
    let r = sync surroundings shop (cluster stored) [] in
    (count (watched chi_apply) r.1 ≡ count (watched chi_apply) []) × (r.0 ≢ ok tt)
unfolding server_certificate_issued tls_enabled equal_fold get lookup value_or_empty
sync-waits_for_certificate_example =
    sync-waits_for_certificate surroundings shop (cluster stored) [] chi_apply refl
      (λ g issued. ground arith)

sync-Publishes_example :
    let synced = sync_resources surroundings shop no_keeper [] in
    let r = sync surroundings shop no_keeper [] in
    (r.0 ≡ synced.0) × Publishes surroundings shop no_keeper synced r.1
sync-Publishes_example = sync-Publishes surroundings shop no_keeper []

-- The Instance that already states what Sync would publish
abbrev stated : Instance
stated = record shop {
  status = record (shop.status) { phase = "Provisioning"; message = "Creating ClickHouse" };
}

abbrev creating : Status
creating = record { phase = provisioning; message = "Creating ClickHouse"; connection = none }

runtime-ReportsChanges : ReportsChanges runtime
runtime-ReportsChanges = record { unchanged = λ conditions condition e. ground arith }

desired_status-unchanged_example :
    (desired_status surroundings stated creating false []).0 ≡ stated.status
unfolding desired_status
desired_status-unchanged_example =
    desired_status-unchanged surroundings stated creating false [] runtime-ReportsChanges refl

abbrev address_of : String → LiveService
address_of ip = record {
  service_type = "LoadBalancer";
  ingress = record { hostname = ""; ip = ip } ∷ [];
  ports = [];
}

abbrev client_service : WatchedService
client_service = record {
  name = client_service_name "shop";
  namespace = "prod";
  labels = (label_chi_name, "shop") ∷ (label_operator_service, "chi") ∷ [];
  live = address_of "203.0.113.8";
}

address_change-reconciles_example :
    (load_balancer_address_changed (updated (address_of "203.0.113.7") client_service.live) ≡ true)
    × (instance_for_client_service client_service ≡ ("prod", "shop") ∷ [])
unfolding get lookup value_or_empty service_addresses ingress_names ingress_ips
address_change-reconciles_example =
    address_change-reconciles client_service "shop" (address_of "203.0.113.7")
      (λ e. ground (arith, eq_iff "shop" "")) refl refl refl refl refl
      (λ e. ground (arith, eq_iff "203.0.113.7" "203.0.113.8"))
