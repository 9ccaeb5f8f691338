-- ===== src/Sync/Progress/Policies.antt =====
-- In a healthy cluster the policies, the PodMonitor and the removal of certificates do not hold a
-- Sync up.
use provider_altinity_clickh.Prelude.{
  ◌≡◌, refl, ap, String, Bool, true, false, not, ◌&&◌, Option, arith, is_some,
}
use provider_altinity_clickh.Prelude.Text.{◌<>◌}
use provider_altinity_clickh.Prelude.Result.{ok}
use provider_altinity_clickh.Operator.{Chi, Chk, Settings}
use provider_altinity_clickh.Instance.{Instance}
use provider_altinity_clickh.Cluster.Objects.{Peer, NetworkPolicy}
use provider_altinity_clickh.Cluster.{
  network_policy_kind, Api, wrap, wrap_error, list_pods, Exec, pure, lift, ◌>>=◌, get_chk,
  optional_result,
}
use provider_altinity_clickh.Cluster.Success.{
  IsHealthy, Any, Gives, optional-ok, >>=-Gives, if-Gives,
}
use provider_altinity_clickh.Common.{plaintext_policy_suffix, label_chi_name, label_chk_name}
use provider_altinity_clickh.Expose.{applied_tls_required}
use provider_altinity_clickh.NetPol.{
  OperatorEnvironment, plaintext_policy, operator_peer, reconcile_policy,
  reconcile_plaintext_policy,
}
use provider_altinity_clickh.Monitoring.{
  delete_pod_monitor, reconcile_pod_monitor, apply_outcome, delete_monitor_outcome,
}
use provider_altinity_clickh.Tls.{keeper_cr_name, server_secret_name, ca_secret_name}
use provider_altinity_clickh.Tls.Resources.{
  optional_secret, tls_resources, delete_tls_resources, server_secret_mounted, mounts,
  serves_certificate, keeper_serves_certificate, cleanup_unmounted, cleanup_tls,
}
use provider_altinity_clickh.Sync.Progress.Certificates.{delete_all-Gives, secret-Gives}

abbrev optional_chk : String → Exec (Option Chk)
optional_chk name = get_chk name >>= λ answer. lift (optional_result name answer)

module _ (api : Api) (healthy : IsHealthy api) where
  pods-Gives : (key value : String) → Gives api Any (wrap "list pods" (list_pods key value))
  pods-Gives key value = record {
    gives = λ h. let (l, e) = healthy.pods h key value in (l, ap (wrap_error "list pods") e, tt);
  }

  chk-Gives : (name : String) → Gives api Any (optional_chk name)
  chk-Gives name = record {
    gives = λ h.
        let (o, e) = optional-ok name (api.read_chk h name) (healthy.chks h name) in
        (o, rw e refl, tt);
  }

  pub reconcile_pod_monitor-Gives :
      (instance_ : Instance) → Gives api Any (reconcile_pod_monitor instance_)
  unfolding reconcile_pod_monitor delete_pod_monitor apply_outcome delete_monitor_outcome
  reconcile_pod_monitor-Gives instance_ = record {
    gives = λ h. (tt, grind (arith, healthy.applies, healthy.deletes), tt);
  }

  policy-Gives :
      (environment : OperatorEnvironment) (op : Peer) (name : String) (wanted : Bool)
      (build : Peer → NetworkPolicy)
      → operator_peer environment ≡ ok op
      → Gives api Any (reconcile_policy environment name wanted build)
  unfolding reconcile_policy
  policy-Gives environment op name true build e = record {
    gives = λ h. (tt, rw e (grind (arith, healthy.applies)), tt);
  }
  policy-Gives environment op name false build e = record {
    gives = λ h.
        let (o, r) =
          optional-ok name (api.read_other h network_policy_kind name)
            (healthy.others h network_policy_kind name) in
        (tt, rw r (grind (arith, healthy.deletes)), tt);
  }

  pub reconcile_plaintext_policy-Gives :
      (environment : OperatorEnvironment) (op : Peer) (instance_ : Instance) (chi : Chi)
      → operator_peer environment ≡ ok op
      → Gives api Any (reconcile_plaintext_policy environment instance_ chi)
  unfolding reconcile_plaintext_policy
  reconcile_plaintext_policy-Gives environment op instance_ chi e =
      let required = applied_tls_required chi in
      >>=-Gives api Any Any
        (reconcile_policy environment (instance_.name <> plaintext_policy_suffix) required
          (plaintext_policy instance_))
        _ (policy-Gives environment op _ required _ e)
        (λ done any. policy-Gives environment op _ _ _ e)

  mounted-Gives : (instance_ : Instance) → Gives api Any (server_secret_mounted instance_)
  unfolding server_secret_mounted
  mounted-Gives instance_ =
      >>=-Gives api Any Any (wrap "list pods" (list_pods label_chi_name instance_.name)) _
        (pods-Gives label_chi_name instance_.name)
        (λ clickhouse any.
          if-Gives api Any (mounts (server_secret_name instance_.name) clickhouse) (pure true) _
            (λ e. record { gives = λ h. (true, refl, tt) })
            (λ e.
              >>=-Gives api Any Any
                (wrap "list pods" (list_pods label_chk_name (keeper_cr_name instance_.name))) _
                (pods-Gives label_chk_name (keeper_cr_name instance_.name))
                (λ keeper any'. record { gives = λ h. (_, refl, tt) })))

  module _ (has : Settings → Bool) (instance_ : Instance) where
    unmounted-Gives : Gives api Any (cleanup_unmounted has instance_)
    unfolding cleanup_unmounted delete_tls_resources
    unmounted-Gives =
        >>=-Gives api Any Any (optional_secret (server_secret_name instance_.name)) _
          (secret-Gives api healthy _)
          (λ server any.
            >>=-Gives api Any Any (optional_secret (ca_secret_name instance_.name)) _
              (secret-Gives api healthy _)
              (λ ca_secret any'.
                if-Gives api Any (not (is_some server) && not (is_some ca_secret)) (pure tt) _
                  (λ e. record { gives = λ h. (tt, refl, tt) })
                  (λ e. delete_all-Gives api healthy (tls_resources instance_.name))))

    pub cleanup_tls-Gives : (chi : Chi) → Gives api Any (cleanup_tls has instance_ chi)
    unfolding cleanup_tls
    cleanup_tls-Gives chi =
        if-Gives api Any (serves_certificate has chi.spec) (pure tt) _
          (λ e. record { gives = λ h. (tt, refl, tt) })
          (λ e.
            >>=-Gives api Any Any (optional_chk (keeper_cr_name instance_.name)) _
              (chk-Gives (keeper_cr_name instance_.name))
              (λ chk any.
                if-Gives api Any (keeper_serves_certificate has chk) (pure tt) _
                  (λ e. record { gives = λ h. (tt, refl, tt) })
                  (λ e'.
                    >>=-Gives api Any Any (server_secret_mounted instance_) _
                      (mounted-Gives instance_)
                      (λ mounted any'.
                        if-Gives api Any mounted (pure tt) (cleanup_unmounted has instance_)
                          (λ e''. record { gives = λ h. (tt, refl, tt) })
                          (λ e''. unmounted-Gives)))))
