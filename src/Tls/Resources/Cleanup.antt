-- ===== src/Tls/Resources/Cleanup.antt =====
-- With TLS turned off, the certificates are deleted only when nothing uses them any more.
use provider_altinity_clickh.Prelude.{
  ℕ, suc, ◌≡◌, ◌≢◌, ◌⊎◌, inl, inr, Bool, true, false, List, [], ◌∷◌, arith,
}
use provider_altinity_clickh.Prelude.Result.{Result, ok}
use provider_altinity_clickh.Common.{label_chi_name, label_chk_name}
use provider_altinity_clickh.Operator.{Chi, Chk, Settings}
use provider_altinity_clickh.Instance.{Instance}
use provider_altinity_clickh.Cluster.{
  Event, deleted, read, listed, chk_kind, History, Api, found, Pod,
}
use provider_altinity_clickh.Tls.{keeper_cr_name, server_secret_name}
use provider_altinity_clickh.Tls.Resources.{
  serves_certificate, mounts, server_secret_mounted, cleanup_tls,
}

abbrev is_deletion : Event → Bool
is_deletion (deleted kind name) = true
is_deletion _ = false

abbrev pub deletions : History → ℕ
deletions [] = 0
deletions (e ∷ h) =
    let rest = deletions h in elim (is_deletion e) [ true ↦ suc rest | false ↦ rest ]

-- The history in which the CHK was read, and the one in which ClickHouse's pods were listed too.
abbrev after_chk : Instance → History → History
after_chk instance_ h = read chk_kind (keeper_cr_name instance_.name) ∷ h

abbrev after_pods : Instance → History → History
after_pods instance_ h = listed label_chi_name instance_.name ∷ after_chk instance_ h

-- Something uses the server certificate: the CHI, the CHK that the API answers with, or a pod of
-- ClickHouse or Keeper that it lists.
abbrev pub InUse : (Settings → Bool) → Instance → Chi → Api → History → Type 0
InUse has instance_ chi api h =
    (serves_certificate has chi.spec ≡ true)
    ⊎ ((chk : Chk) × (api.read_chk h (keeper_cr_name instance_.name) ≡ found chk)
        × (serves_certificate has chk.spec ≡ true))
    ⊎ ((pods : List Pod) × (api.list_pods (after_chk instance_ h) label_chi_name instance_.name
          ≡ ok pods)
        × (mounts (server_secret_name instance_.name) pods ≡ true))
    ⊎ ((pods : List Pod) × (api.list_pods (after_pods instance_ h) label_chk_name
            (keeper_cr_name instance_.name)
          ≡ ok pods)
        × (mounts (server_secret_name instance_.name) pods ≡ true))

module _ (has : Settings → Bool) (instance_ : Instance) (chi : Chi) (api : Api) (h : History) where
  abbrev mounted_of : Result Bool × History
  mounted_of = server_secret_mounted instance_ api (after_chk instance_ h)

  deletions-mounted : deletions mounted_of.1 ≡ deletions h
  unfolding server_secret_mounted
  deletions-mounted = ground arith

  mounted_clickhouse :
      (pods : List Pod)
      → api.list_pods (after_chk instance_ h) label_chi_name instance_.name ≡ ok pods
      → mounts (server_secret_name instance_.name) pods ≡ true
      → mounted_of.0 ≢ ok false
  unfolding server_secret_mounted
  mounted_clickhouse pods e m n = ground arith

  mounted_keeper :
      (pods : List Pod)
      → api.list_pods (after_pods instance_ h) label_chk_name (keeper_cr_name instance_.name)
        ≡ ok pods
      → mounts (server_secret_name instance_.name) pods ≡ true
      → mounted_of.0 ≢ ok false
  unfolding server_secret_mounted
  mounted_keeper pods e m n = ground arith

  deletions-cleanup_tls :
      (serves_certificate has chi.spec ≡ true)
        ⊎ ((chk : Chk) × (api.read_chk h (keeper_cr_name instance_.name) ≡ found chk)
            × (serves_certificate has chk.spec ≡ true))
        ⊎ (mounted_of.0 ≢ ok false)
      → deletions (cleanup_tls has instance_ chi api h).1 ≡ deletions h
  unfolding cleanup_tls
  deletions-cleanup_tls u = ground (arith, deletions-mounted)

-- As long as the CHI, the CHK or a listed pod uses the server certificate, turning TLS off deletes
-- nothing, whatever else the API answers.
pub cleanup_tls-InUse :
    (has : Settings → Bool) (instance_ : Instance) (chi : Chi) (api : Api) (h : History)
    → InUse has instance_ chi api h
    → deletions (cleanup_tls has instance_ chi api h).1 ≡ deletions h
cleanup_tls-InUse has instance_ chi api h (inl e) =
    deletions-cleanup_tls has instance_ chi api h (inl e)
cleanup_tls-InUse has instance_ chi api h (inr (inl c)) =
    deletions-cleanup_tls has instance_ chi api h (inr (inl c))
cleanup_tls-InUse has instance_ chi api h (inr (inr (inl (pods, e, m)))) =
    deletions-cleanup_tls has instance_ chi api h
      (inr (inr (mounted_clickhouse has instance_ chi api h pods e m)))
cleanup_tls-InUse has instance_ chi api h (inr (inr (inr (pods, e, m)))) =
    deletions-cleanup_tls has instance_ chi api h
      (inr (inr (mounted_keeper has instance_ chi api h pods e m)))
