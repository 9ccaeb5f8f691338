-- ===== src/Cleanup.antt =====
-- internal/provider/provider.go, Cleanup: what is deleted with an Instance, and in which order.
pub mod Volumes
pub mod Order
pub mod Done
use provider_altinity_clickh.Prelude.{
  ℕ, zero, suc, ◌+◌, String, Bool, true, false, not, Option, none, some, List, [], ◌∷◌,
  if◌then◌else◌,
}
use provider_altinity_clickh.Prelude.Text.{str_eq, ◌<>◌}
use provider_altinity_clickh.Prelude.Result.{Error, wait, wrapped, Result, ok, err}
use provider_altinity_clickh.Common.{
  label_chi_name, label_chk_name, label_chi_reclaim_policy, label_chk_reclaim_policy,
  storage_reclaim_policy_delete,
}
use provider_altinity_clickh.Operator.{Chi, Chk, Templates, VolumeClaimTemplate}
use provider_altinity_clickh.Instance.{Instance, is_replicated_topology}
use provider_altinity_clickh.Cluster.{
  Kind, chi_kind, chk_kind, secret_kind, pod_monitor_kind, pvc_kind, Pvc, Read, found, missing,
  failed, Exec, pure, lift, raise, ◌>>=◌, ◌>>◌, wrap, get_chi, get_chk, list_pvcs, delete, patch,
  label,
}
use provider_altinity_clickh.Cluster.Secret.{get}
use provider_altinity_clickh.Rollout.{credentials_secret_name, rollout_state_name}
use provider_altinity_clickh.Sizing.{storage_reclaim_policy}
use provider_altinity_clickh.Tls.{keeper_cr_name}
use provider_altinity_clickh.Monitoring.{delete_pod_monitor}
use provider_altinity_clickh.Tls.Resources.{delete_tls_resources}

-- The indices of the volume claim templates with another policy.
unfoldable pub stale_indices : String → ℕ → List VolumeClaimTemplate → List ℕ
stale_indices policy i [] = []
stale_indices policy i (vct ∷ vcts) =
    let rest = stale_indices policy (i + 1) vcts in
    if str_eq vct.reclaim_policy policy then rest else i ∷ rest

unfoldable pub patch_indices : Kind → String → String → List ℕ → Exec (Unit {0})
patch_indices kind name policy [] = pure tt
patch_indices kind name policy (i ∷ is) =
    wrap ("set reclaim policy on " <> name) (patch kind name (i ∷ is) policy)

unfoldable pub patch_templates : Kind → String → String → Option Templates → Exec (Unit {0})
unfolding stale_indices patch_indices
patch_templates kind name policy none = pure tt
patch_templates kind name policy (some t) =
    patch_indices kind name policy (stale_indices policy 0 t.volume_claim_templates)

unfoldable pub patch_chi : String → String → Read Chi → Exec (Unit {0})
patch_chi name policy (found chi) = patch_templates chi_kind name policy chi.spec.templates
patch_chi name policy missing = pure tt
patch_chi name policy (failed e) = raise (wrapped ("get " <> name) e)

unfoldable pub patch_chk : String → String → Read Chk → Exec (Unit {0})
patch_chk name policy (found chk) = patch_templates chk_kind name policy chk.spec.templates
patch_chk name policy missing = pure tt
patch_chk name policy (failed e) = raise (wrapped ("get " <> name) e)

unfoldable pub label_each : String → String → List Pvc → Exec (Unit {0})
label_each key policy [] = pure tt
label_each key policy (pvc ∷ pvcs) =
    let rest = label_each key policy pvcs in
    if str_eq (get key pvc.labels) policy
    then rest
    else (wrap ("label PVC " <> pvc.name) (label pvc.name key policy) >> rest)

unfoldable pub label_pvcs : String → String → String → String → Exec (Unit {0})
unfolding label_each
label_pvcs selector value key policy = do
  pvcs ← wrap "list PVCs" (list_pvcs selector value)
  label_each key policy pvcs

unfoldable pub sync_reclaim_policy : Instance → Exec (Unit {0})
unfolding patch_chi patch_chk label_pvcs
sync_reclaim_policy instance_ = do
  let policy = storage_reclaim_policy instance_
  chi ← get_chi instance_.name
  patch_chi instance_.name policy chi
  chk ← get_chk (keeper_cr_name instance_.name)
  patch_chk (keeper_cr_name instance_.name) policy chk
  label_pvcs label_chi_name instance_.name label_chi_reclaim_policy policy
  label_pvcs label_chk_name (keeper_cr_name instance_.name) label_chk_reclaim_policy policy

-- waitForDeletion, on what the read of the object answers
unfoldable pub still_there : {A : Type 0} → String → Read A → Result (Unit {0})
still_there name (found a) = err (wait ("waiting for " <> name <> " to be deleted") 10)
still_there name missing = ok tt
still_there name (failed e) = err (wrapped ("check " <> name) e)

unfoldable pub delete_each : List Pvc → Exec (Unit {0})
delete_each [] = pure tt
delete_each (pvc ∷ pvcs) = do
  wrap ("delete PVC " <> pvc.name) (delete pvc_kind pvc.name)
  delete_each pvcs

unfoldable pub delete_pvcs : Instance → Exec (Unit {0})
unfolding delete_each
delete_pvcs instance_ = do
  clickhouse ← wrap "list PVCs" (list_pvcs label_chi_name instance_.name)
  delete_each clickhouse
  keeper ← wrap "list PVCs" (list_pvcs label_chk_name (keeper_cr_name instance_.name))
  delete_each keeper

unfoldable pub delete_keeper : Instance → Exec (Unit {0})
unfolding still_there
delete_keeper instance_ = do
  wrap "delete ClickHouseKeeperInstallation" (delete chk_kind (keeper_cr_name instance_.name))
  answer ← get_chk (keeper_cr_name instance_.name)
  lift (still_there (keeper_cr_name instance_.name) answer)

unfoldable pub delete_clickhouse : Instance → Exec (Unit {0})
unfolding still_there
delete_clickhouse instance_ = do
  wrap "delete ClickHouseInstallation" (delete chi_kind instance_.name)
  delete_pod_monitor instance_
  wrap "delete credentials secret" (delete secret_kind (credentials_secret_name instance_.name))
  wrap "delete rollout state secret" (delete secret_kind (rollout_state_name instance_.name))
  delete_tls_resources instance_
  answer ← get_chi instance_.name
  lift (still_there instance_.name answer)

-- (p *Provider) Cleanup
unfoldable pub cleanup : Instance → Exec (Unit {0})
unfolding sync_reclaim_policy delete_clickhouse delete_keeper delete_pvcs
cleanup instance_ = do
  sync_reclaim_policy instance_
  delete_clickhouse instance_
  if is_replicated_topology instance_ then delete_keeper instance_ else pure tt
  if str_eq (storage_reclaim_policy instance_) storage_reclaim_policy_delete
      then delete_pvcs instance_
      else pure tt
