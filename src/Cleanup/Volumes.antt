-- ===== src/Cleanup/Volumes.antt =====
-- The volumes of an Instance that keeps them: no handler of Cleanup deletes a volume claim.
use provider_altinity_clickh.Prelude.{
  ℕ, ◌≡◌, refl, ◌≢◌, String, Bool, true, false, Option, none, some, List, [], ◌∷◌, arith, eq_iff,
}
use provider_altinity_clickh.Prelude.Text.{str_eq, ◌<>◌}
use provider_altinity_clickh.Common.{
  label_chi_reclaim_policy, label_chk_reclaim_policy, storage_reclaim_policy_delete, label_chi_name,
  label_chk_name,
}
use provider_altinity_clickh.Operator.{Chi, Chk, Templates}
use provider_altinity_clickh.Instance.{Instance, is_replicated_topology}
use provider_altinity_clickh.Cluster.{
  Kind, chi_kind, chk_kind, secret_kind, pvc_kind, Event, deleted, History, Api, Pvc, Read, found,
  missing, failed, Exec, pure, lift, wrap, delete, attempt, label, list_pvcs, get_chi, get_chk,
}
use provider_altinity_clickh.Cluster.Effects.{
  count, Keeps, >>=-Keeps, if-Keeps, unless-Keeps, attempt-Keeps,
}
use provider_altinity_clickh.Monitoring.{delete_pod_monitor}
use provider_altinity_clickh.Sizing.{storage_reclaim_policy}
use provider_altinity_clickh.Tls.Resources.{
  tls_resources, delete_all, delete_tls_resources, delete_outcome,
}
use provider_altinity_clickh.Tls.{keeper_cr_name}
use provider_altinity_clickh.Cluster.Secret.{get}
use provider_altinity_clickh.Rollout.{credentials_secret_name, rollout_state_name}
use provider_altinity_clickh.Cleanup.{
  patch_indices, patch_templates, patch_chi, patch_chk, label_each, label_pvcs, sync_reclaim_policy,
  delete_keeper, delete_clickhouse, delete_pvcs, cleanup,
}

-- What is deleted late: the volume claims, and before them the CHK.
pub data Late : Type 0 where
  claims keeper_and_claims : Late

abbrev is_keeper_late : Late → Bool
is_keeper_late claims = false
is_keeper_late keeper_and_claims = true

abbrev is_late : Late → Kind → Bool
is_late l pvc_kind = true
is_late l chk_kind = is_keeper_late l
is_late l _ = false

abbrev pub late : Late → Event → Bool
late l (deleted kind name) = is_late l kind
late l _ = false

abbrev pub claim_deletions : History → ℕ
claim_deletions = count (late claims)

-- An action that deletes nothing of that, whatever the API answers.
abbrev pub KeepsLate : Late → {A : Type 0} → Exec A → Type 0
KeepsLate l m = Keeps (late l) m

module _ (l : Late) where
  patch_indices-Keeps :
      (kind : Kind) (name policy : String) (indices : List ℕ)
      → KeepsLate l (patch_indices kind name policy indices)
  unfolding patch_indices
  patch_indices-Keeps kind name policy [] = record { keeps = λ api h. refl }
  patch_indices-Keeps kind name policy (i ∷ is) = record { keeps = λ api h. refl }

  patch_templates-Keeps :
      (kind : Kind) (name policy : String) (t : Option Templates)
      → KeepsLate l (patch_templates kind name policy t)
  unfolding patch_templates
  patch_templates-Keeps kind name policy none = record { keeps = λ api h. refl }
  patch_templates-Keeps kind name policy (some t) = patch_indices-Keeps kind name policy _

  patch_chi-Keeps :
      (name policy : String) (answer : Read Chi) → KeepsLate l (patch_chi name policy answer)
  unfolding patch_chi
  patch_chi-Keeps name policy (found chi) = patch_templates-Keeps chi_kind name policy _
  patch_chi-Keeps name policy missing = record { keeps = λ api h. refl }
  patch_chi-Keeps name policy (failed e) = record { keeps = λ api h. refl }

  patch_chk-Keeps :
      (name policy : String) (answer : Read Chk) → KeepsLate l (patch_chk name policy answer)
  unfolding patch_chk
  patch_chk-Keeps name policy (found chk) = patch_templates-Keeps chk_kind name policy _
  patch_chk-Keeps name policy missing = record { keeps = λ api h. refl }
  patch_chk-Keeps name policy (failed e) = record { keeps = λ api h. refl }

  label_each-Keeps :
      (key policy : String) (pvcs : List Pvc) → KeepsLate l (label_each key policy pvcs)
  unfolding label_each
  label_each-Keeps key policy [] = record { keeps = λ api h. refl }
  label_each-Keeps key policy (pvc ∷ pvcs) =
      let rest = label_each-Keeps key policy pvcs in
      if-Keeps (late l) (str_eq (get key pvc.labels) policy) _ _ rest (
        >>=-Keeps (late l) (wrap ("label PVC " <> pvc.name) (label pvc.name key policy)) _
          (record { keeps = λ api h. refl }) (λ done. rest))

  label_pvcs-Keeps :
      (selector value key policy : String) → KeepsLate l (label_pvcs selector value key policy)
  unfolding label_pvcs
  label_pvcs-Keeps selector value key policy =
      >>=-Keeps (late l) (wrap "list PVCs" (list_pvcs selector value)) _
        (record { keeps = λ api h. refl }) (λ pvcs. label_each-Keeps key policy pvcs)

  pub sync_reclaim_policy-Keeps :
      (instance_ : Instance) → KeepsLate l (sync_reclaim_policy instance_)
  unfolding sync_reclaim_policy
  sync_reclaim_policy-Keeps instance_ =
      >>=-Keeps (late l) (get_chi instance_.name) _ (record { keeps = λ api h. refl })
        (λ chi.
          >>=-Keeps (late l) _ _
            (patch_chi-Keeps instance_.name (storage_reclaim_policy instance_) chi)
            (λ done.
              >>=-Keeps (late l) (get_chk (keeper_cr_name instance_.name)) _
                (record { keeps = λ api h. refl })
                (λ chk.
                  >>=-Keeps (late l) _ _
                    (patch_chk-Keeps (keeper_cr_name instance_.name)
                      (storage_reclaim_policy instance_) chk)
                    (λ patched.
                      >>=-Keeps (late l) _ _
                        (label_pvcs-Keeps label_chi_name instance_.name label_chi_reclaim_policy
                          (storage_reclaim_policy instance_))
                        (λ labelled.
                          label_pvcs-Keeps label_chk_name (keeper_cr_name instance_.name)
                            label_chk_reclaim_policy (storage_reclaim_policy instance_))))))

  -- None of the objects is deleted late.
  abbrev NoLate : List (Kind × String) → Type 0
  NoLate [] = Unit
  NoLate ((kind, name) ∷ objects) = ((late l) (deleted kind name) ≡ false) × NoLate objects

  delete-Keeps :
      (kind : Kind) (name : String)
      → (late l) (deleted kind name) ≡ false
      → KeepsLate l (delete kind name)
  delete-Keeps kind name e = record { keeps = λ api h. ground arith }

  delete_all-Keeps :
      (objects : List (Kind × String)) → NoLate objects → KeepsLate l (delete_all objects)
  unfolding delete_all
  delete_all-Keeps [] n = record { keeps = λ api h. refl }
  delete_all-Keeps ((kind, name) ∷ objects) (e, n) =
      >>=-Keeps (late l) (attempt (delete kind name)) _
        (attempt-Keeps (late l) _ (delete-Keeps kind name e))
        (λ outcome.
          >>=-Keeps (late l) (lift (delete_outcome outcome)) _ (record { keeps = λ api h. refl })
            (λ done. delete_all-Keeps objects n))

  pub delete_tls_resources-Keeps :
      (instance_ : Instance) → KeepsLate l (delete_tls_resources instance_)
  unfolding delete_tls_resources
  delete_tls_resources-Keeps instance_ =
      delete_all-Keeps (tls_resources instance_.name)
        (refl, (refl, (refl, (refl, (refl, (refl, tt))))))

  pub delete_pod_monitor-Keeps : (instance_ : Instance) → KeepsLate l (delete_pod_monitor instance_)
  unfolding delete_pod_monitor
  delete_pod_monitor-Keeps instance_ = record { keeps = λ api h. refl }

  pub delete_clickhouse-Keeps : (instance_ : Instance) → KeepsLate l (delete_clickhouse instance_)
  unfolding delete_clickhouse
  delete_clickhouse-Keeps instance_ =
      >>=-Keeps (late l) (wrap "delete ClickHouseInstallation" (delete chi_kind instance_.name)) _
        (record { keeps = λ api h. refl })
        (λ chi. >>=-Keeps (late l) _ _ (delete_pod_monitor-Keeps instance_) (λ monitor.
          >>=-Keeps (late l)
            (wrap "delete credentials secret"
              (delete secret_kind (credentials_secret_name instance_.name)))
            _ (record { keeps = λ api h. refl })
            (λ credentials.
              >>=-Keeps (late l)
                (wrap "delete rollout state secret"
                  (delete secret_kind (rollout_state_name instance_.name)))
                _ (record { keeps = λ api h. refl })
                (λ state.
                  >>=-Keeps (late l) _ _ (delete_tls_resources-Keeps instance_)
                    (λ tls. record { keeps = λ api h. refl })))))

pub delete_keeper-Keeps : (instance_ : Instance) → KeepsLate claims (delete_keeper instance_)
unfolding delete_keeper
delete_keeper-Keeps instance_ =
    >>=-Keeps (late claims)
      (wrap "delete ClickHouseKeeperInstallation" (delete chk_kind (keeper_cr_name instance_.name)))
      _ (record { keeps = λ api h. refl }) (λ deleted_. record { keeps = λ api h. refl })

-- Under a reclaim policy other than Delete, deleting the Instance deletes no volume claim, whatever
-- the API answers.
pub claim_deletions-cleanup :
    (instance_ : Instance) (api : Api) (h : History)
    → storage_reclaim_policy instance_ ≢ storage_reclaim_policy_delete
    → claim_deletions (cleanup instance_ api h).1 ≡ claim_deletions h
unfolding cleanup
claim_deletions-cleanup instance_ api h retained =
    let kept : str_eq (storage_reclaim_policy instance_) storage_reclaim_policy_delete ≡ false =
      ground (arith, eq_iff (storage_reclaim_policy instance_) storage_reclaim_policy_delete) in
    (>>=-Keeps (late claims) _ _ (sync_reclaim_policy-Keeps claims instance_) (λ synced.
        >>=-Keeps (late claims) _ _ (delete_clickhouse-Keeps claims instance_) (λ gone.
          >>=-Keeps (late claims) _ _
            (if-Keeps (late claims) (is_replicated_topology instance_) _ _
              (delete_keeper-Keeps instance_) (record { keeps = λ api h. refl }))
            (λ keeper.
              unless-Keeps (late claims) _ kept (delete_pvcs instance_) (pure tt)
                (record { keeps = λ api h. refl }))))).keeps
      api h
