-- ===== src/Examples/Monitored.antt =====
-- A cluster that does not know the PodMonitor kind.
use provider_altinity_clickh.Prelude.{◌≡◌, refl, if◌then◌else◌, []}
use provider_altinity_clickh.Prelude.Result.{no_match, Result, ok, err}
use provider_altinity_clickh.Cluster.{Api, Kind, Object, pod_monitor_kind, pure, wrap, History}
use provider_altinity_clickh.Cluster.Secret.{get, put}
use provider_altinity_clickh.Credentials.{
  ensure_credentials, derive, fill_key, bump_if, put_if, complete, store, same_data,
}
use provider_altinity_clickh.Prelude.Text.{equal_fold}
use provider_altinity_clickh.Tls.{tls_enabled}
use provider_altinity_clickh.Tls.Resources.{ensure_tls, server_certificate_issued}
use provider_altinity_clickh.Sync.{sync, sync_topology}
use provider_altinity_clickh.Sync.Monitored.{without_monitor, sync-without_monitor}
use provider_altinity_clickh.Examples.Data.{shop}
use provider_altinity_clickh.Examples.Secrets.{crypto, served}
use provider_altinity_clickh.Examples.Environment.{surroundings}
use provider_altinity_clickh.Examples.Finished.{quiet_cluster}

abbrev answer : Object → Result (Unit {0})
answer (Object.pod_monitor monitor) = err no_match
answer _ = ok tt

abbrev deletion : Kind → Result (Unit {0})
deletion pod_monitor_kind = err no_match
deletion _ = ok tt

abbrev unmonitored : Api
unmonitored = record quiet_cluster {
  apply = λ h object. answer object;
  delete = λ h kind name. deletion kind;
}

abbrev after_credentials : History
after_credentials = (ensure_credentials crypto shop unmonitored []).1

abbrev after_tls : History
after_tls = (ensure_tls shop unmonitored after_credentials).1

ensured :
    wrap "ensure credentials" (ensure_credentials crypto shop) unmonitored []
    ≡ (ok served, after_credentials)
unfolding get bump_if complete derive ensure_credentials fill_key put_if same_data store put
ensured = refl

secured :
    (if tls_enabled shop then ensure_tls shop else pure tt) unmonitored after_credentials
    ≡ (ok tt, after_tls)
unfolding get tls_enabled equal_fold ensure_tls server_certificate_issued ensure_credentials
secured = refl

sync-without_monitor_example :
    (sync surroundings shop unmonitored []).0
    ≡ without_monitor shop no_match (sync_topology surroundings shop unmonitored after_tls).0
sync-without_monitor_example =
    sync-without_monitor surroundings shop unmonitored [] after_credentials after_tls served
      no_match ensured secured (λ g. refl) (λ g. refl)
