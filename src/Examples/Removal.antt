-- ===== src/Examples/Removal.antt =====
-- Deleting an Instance that keeps its volumes.
use provider_altinity_clickh.Tls.Resources.{delete_tls_resources}
use provider_altinity_clickh.Cluster.Secret.{get}
use provider_altinity_clickh.Monitoring.{delete_pod_monitor}
use provider_altinity_clickh.Instance.{
  Instance, zero_component, zero_parameters, is_replicated_topology,
}
use provider_altinity_clickh.Tls.{keeper_cr_name}
use provider_altinity_clickh.Prelude.{
  ◌⊎◌, false, some, none, ◌∷◌, ◌≡◌, ◌≢◌, refl, [], arith, eq_iff,
}
use provider_altinity_clickh.Cluster.{History, Api, missing}
use provider_altinity_clickh.Cleanup.Done.{ClaimsDeleted, cleanup-deletes_claims}
use provider_altinity_clickh.Prelude.Text.{equal_fold}
use provider_altinity_clickh.Sizing.{storage_reclaim_policy}
use provider_altinity_clickh.Cleanup.{cleanup}
use provider_altinity_clickh.Cleanup.Volumes.{
  claim_deletions, claim_deletions-cleanup, late, claims, keeper_and_claims,
}
use provider_altinity_clickh.Prelude.Result.{ok}
use provider_altinity_clickh.Cluster.Effects.{count}
use provider_altinity_clickh.Cleanup.Order.{cleanup-waits_for_clickhouse, cleanup-waits_for_keeper}
use provider_altinity_clickh.Examples.Data.{shop, cluster}

claim_deletions-cleanup_example :
    claim_deletions (cleanup shop (cluster []) []).1 ≡ claim_deletions []
unfolding storage_reclaim_policy equal_fold
claim_deletions-cleanup_example =
    claim_deletions-cleanup shop (cluster []) [] (ground (arith, eq_iff "Retain" "Delete"))

cleanup-waits_for_clickhouse_example :
    let r = cleanup shop (cluster []) [] in
    (count (late keeper_and_claims) r.1 ≡ count (late keeper_and_claims) []) × (r.0 ≢ ok tt)
cleanup-waits_for_clickhouse_example =
    cleanup-waits_for_clickhouse shop (cluster []) [] (λ g gone. ground arith)

-- ClickHouse is gone and Keeper is still there.
abbrev keeper_only : Api
keeper_only = record (cluster []) { read_chi = λ h name. missing }

cleanup-waits_for_keeper_example :
    let r = cleanup shop keeper_only [] in
    (count (late claims) r.1 ≡ count (late claims) []) × (r.0 ≢ ok tt)
cleanup-waits_for_keeper_example =
    cleanup-waits_for_keeper shop keeper_only [] refl (λ g gone. ground arith)

-- The Instance that gives its volumes up, when the operator has deleted everything else.
abbrev disposable : Instance
disposable = record shop {
  engine = some (record zero_component {
    parameters = some (record zero_parameters { storage_reclaim_policy = "Delete" });
  });
}

abbrev gone : Api
gone = record (cluster []) {
  read_chi = λ h name. missing;
  read_chk = λ h name. missing;
  list_pvcs = λ h key value. ok (record { name = key; labels = []; storage_class = none } ∷ []);
}

removed : cleanup disposable gone [] ≡ (ok tt, (cleanup disposable gone []).1)
unfolding cleanup equal_fold get delete_pod_monitor delete_tls_resources storage_reclaim_policy
removed = refl

cleanup-deletes_claims_example :
    ((g : History) × (gone.read_chi g disposable.name ≡ missing))
    × ((is_replicated_topology disposable ≡ false)
        ⊎ ((g : History) × (gone.read_chk g (keeper_cr_name disposable.name) ≡ missing)))
    × ClaimsDeleted disposable gone (cleanup disposable gone []).1
unfolding storage_reclaim_policy equal_fold
cleanup-deletes_claims_example =
    cleanup-deletes_claims disposable gone [] (cleanup disposable gone []).1 refl removed
