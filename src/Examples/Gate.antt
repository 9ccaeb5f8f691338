-- ===== src/Examples/Gate.antt =====
-- The rollout gate of an Instance whose CHI is recorded.
use provider_altinity_clickh.Prelude.{suc, ◌≡◌, refl, ◌⊎◌, inl, inr, true, false, some, [], ◌∷◌}
use provider_altinity_clickh.Prelude.Text.{◌<>◌}
use provider_altinity_clickh.Prelude.Result.{ok}
use provider_altinity_clickh.Cluster.{Api, applied}
use provider_altinity_clickh.Cluster.Secret.{get}
use provider_altinity_clickh.Rollout.{clickhouse, gate_live, load_record, target_key}
use provider_altinity_clickh.Rollout.Decision.{
  Attributed, Approved, applications, gate_live_applies,
}
use provider_altinity_clickh.Rollout.Record.{SameEntries, load_record_entries}
use provider_altinity_clickh.Rollout.Apply.{sent, gate_live_again, wrap_result}
use provider_altinity_clickh.Tls.Resources.{mounts, cleanup_tls}
use provider_altinity_clickh.Tls.{server_secret_name}
use provider_altinity_clickh.Tls.Resources.Cleanup.{deletions, cleanup_tls-InUse}
use provider_altinity_clickh.Examples.Data.{shop, shop_chi, shop_gate, cluster}

gate_live_applies_example :
    let r =
      gate_live shop shop_gate
        (clickhouse shop_chi)
        "chi"
        "fedcba9876543210"
        (some (clickhouse shop_chi))
        (cluster [])
        [] in
    ((Attributed shop_gate true "chi" "fedcba9876543210" ⊎ Approved shop_gate (cluster []) [])
      × (applications r.1 ≡ suc (applications [])))
    ⊎ (¬ (Attributed shop_gate true "chi" "fedcba9876543210" ⊎ Approved shop_gate (cluster []) [])
        × (applications r.1 ≡ applications [])
        × (r.0 ≡ ok (record shop_gate { approved = some false }, false)))
gate_live_applies_example =
    gate_live_applies shop shop_gate (clickhouse shop_chi) "chi" "fedcba9876543210"
      (some (clickhouse shop_chi)) (cluster []) []

load_record_entries_example :
    SameEntries shop_gate.recorded (load_record shop_gate.recorded) "chi"
    × (get target_key (load_record shop_gate.recorded) ≡ get target_key shop_gate.recorded)
    × (get ("chi" <> ".inputs") (load_record shop_gate.recorded) ≡ "")
    × (get ("chi" <> ".instance") (load_record shop_gate.recorded) ≡ "")
load_record_entries_example = load_record_entries shop_gate.recorded "chi" (inl refl)

gate_live_again_example :
    gate_live shop shop_gate
      (clickhouse shop_chi)
      "chi"
      "0123456789abcdef"
      (some (clickhouse shop_chi))
      (cluster [])
      []
    ≡ (
      wrap_result (ok tt) (shop_gate, true),
      applied (
            sent shop_gate
              (clickhouse shop_chi)
              "chi"
              "0123456789abcdef"
              (some (clickhouse shop_chi)))
          ∷ [],
    )
unfolding get
gate_live_again_example =
    gate_live_again shop shop_gate (clickhouse shop_chi) "chi" "0123456789abcdef"
      (some (clickhouse shop_chi)) (cluster []) [] refl refl

abbrev mounting : Api
mounting = record (cluster []) {
  list_pods = λ h key value. ok ((record { secret_volumes = server_secret_name "shop" ∷ [] }) ∷ []);
}

cleanup_tls-InUse_example :
    deletions (cleanup_tls (λ settings. false) shop shop_chi mounting []).1 ≡ deletions []
unfolding mounts
cleanup_tls-InUse_example =
    cleanup_tls-InUse (λ settings. false) shop shop_chi mounting []
      (inr
        (inr (inl ((record { secret_volumes = server_secret_name "shop" ∷ [] }) ∷ [], refl, refl))))
