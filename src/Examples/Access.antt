-- ===== src/Examples/Access.antt =====
-- Pods of an Instance whose TLS is required, and a pod of another namespace.
use provider_altinity_clickh.NetPol.{resolve_namespace}
use provider_altinity_clickh.NetPol.{operator_peer}
use provider_altinity_clickh.Prelude.Text.{equal_fold}
use provider_altinity_clickh.Prelude.{◌≡◌, refl, ◌↔◌, ◌⊎◌, true, [], ◌∷◌, arith}
use provider_altinity_clickh.Prelude.Result.{ok}
use provider_altinity_clickh.Common.{
  label_chi_name, label_chk_name, http_port, tcp_port, https_port, tcp_secure_port, metrics_port,
  interserver_http_port, interserver_https_port, keeper_port, keeper_secure_port, keeper_raft_port,
}
use provider_altinity_clickh.Cluster.Secret.{lookup}
use provider_altinity_clickh.Cluster.Objects.{pods}
use provider_altinity_clickh.Expose.{applied_tls_required, configure_expose, service_ports}
use provider_altinity_clickh.Tls.{tls_mode}
use provider_altinity_clickh.Render.Chi.{render_chi}
use provider_altinity_clickh.NetPol.{reconcile_policy, reconcile_plaintext_policy}
use provider_altinity_clickh.NetPol.Connections.{
  ClusterPod, Labelled, IsPeer, Connects, applied_policies,
}
use provider_altinity_clickh.NetPol.Access.{plaintext_policy_iff, keeper_policy_iff}
use provider_altinity_clickh.Examples.Data.{shop, cluster}
use provider_altinity_clickh.Examples.Environment.{surroundings}
use provider_altinity_clickh.Examples.Healthy.{op, is_op, live}

abbrev clickhouse_pod : ClusterPod
clickhouse_pod = record { namespace = "prod"; labels = (label_chi_name, "shop") ∷ [] }

abbrev keeper_pod : ClusterPod
keeper_pod = record { namespace = "prod"; labels = (label_chk_name, "shop-keeper") ∷ [] }

abbrev stranger : ClusterPod
stranger = record { namespace = "web"; labels = [] }

is_required : applied_tls_required live.0 ≡ true
unfolding applied_tls_required configure_expose service_ports tls_mode render_chi operator_peer
    resolve_namespace equal_fold reconcile_plaintext_policy reconcile_policy
is_required = refl

is_reconciled :
    (reconcile_plaintext_policy surroundings.environment shop live.0 (cluster []) []).0 ≡ ok tt
unfolding reconcile_plaintext_policy reconcile_policy applied_tls_required configure_expose
    equal_fold operator_peer render_chi resolve_namespace service_ports tls_mode
is_reconciled = refl

is_clickhouse : Labelled label_chi_name "shop" clickhouse_pod
unfolding lookup
is_clickhouse = refl

not_keeper : ¬ Labelled label_chk_name "shop-keeper" clickhouse_pod
unfolding lookup
not_keeper e = ground arith

is_keeper : Labelled label_chk_name "shop-keeper" keeper_pod
unfolding lookup
is_keeper = refl

not_clickhouse : ¬ Labelled label_chi_name "shop" keeper_pod
unfolding lookup
not_clickhouse e = ground arith

plaintext_policy_iff_example :
    Connects "prod"
      (applied_policies
        (reconcile_plaintext_policy surroundings.environment shop live.0 (cluster []) []).1)
      stranger
      clickhouse_pod
      tcp_port
    ↔ (((tcp_port ≡ https_port) ⊎ (tcp_port ≡ tcp_secure_port) ⊎ (tcp_port ≡ metrics_port))
        ⊎ ((IsPeer "prod" (pods label_chi_name "shop") stranger ⊎ IsPeer "prod" op stranger)
            × ((tcp_port ≡ http_port)
                ⊎ (tcp_port ≡ tcp_port)
                ⊎ (tcp_port ≡ interserver_http_port)
                ⊎ (tcp_port ≡ interserver_https_port))))
plaintext_policy_iff_example =
    plaintext_policy_iff surroundings.environment op shop live.0 (cluster []) [] stranger
      clickhouse_pod tcp_port is_op is_required refl is_reconciled refl is_clickhouse not_keeper

keeper_policy_iff_example :
    Connects "prod"
      (applied_policies
        (reconcile_plaintext_policy surroundings.environment shop live.0 (cluster []) []).1)
      clickhouse_pod
      keeper_pod
      keeper_port
    ↔ (IsPeer "prod" op clickhouse_pod
        ⊎ (IsPeer "prod" (pods label_chi_name "shop") clickhouse_pod
            × ((keeper_port ≡ keeper_port) ⊎ (keeper_port ≡ keeper_secure_port)))
        ⊎ (IsPeer "prod" (pods label_chk_name "shop-keeper") clickhouse_pod
            × ((keeper_port ≡ keeper_port)
                ⊎ (keeper_port ≡ keeper_secure_port)
                ⊎ (keeper_port ≡ keeper_raft_port))))
keeper_policy_iff_example =
    keeper_policy_iff surroundings.environment op shop live.0 (cluster []) [] clickhouse_pod
      keeper_pod keeper_port is_op is_required refl refl is_reconciled refl is_keeper not_clickhouse
