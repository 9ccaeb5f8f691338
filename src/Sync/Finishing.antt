-- ===== src/Sync/Finishing.antt =====
-- What follows the apply of a CHI, the NetworkPolicies, the wait and the removal of certificates,
-- applies no CHI and no CHK and requests no maintenance.
use provider_altinity_clickh.Prelude.{
  refl, String, Bool, true, false, not, ◌&&◌, arith, if◌then◌else◌, is_some,
}
use provider_altinity_clickh.Operator.{Chi, Settings}
use provider_altinity_clickh.Instance.{Instance}
use provider_altinity_clickh.Cluster.Objects.{Peer, NetworkPolicy}
use provider_altinity_clickh.Cluster.{Exec, pure, lift, optional_result, ◌>>◌, get_chk}
use provider_altinity_clickh.Cluster.Effects.{>>=-Keeps, lift-Keeps, if-Keeps}
use provider_altinity_clickh.NetPol.{
  OperatorEnvironment, operator_peer, reconcile_policy, reconcile_plaintext_policy,
}
use provider_altinity_clickh.Status.{wait_for_chi}
use provider_altinity_clickh.Tls
use provider_altinity_clickh.Tls.{keeper_cr_name, server_secret_name, ca_secret_name}
use provider_altinity_clickh.Tls.Resources.{
  optional_secret, tls_resources, delete_tls_resources, server_secret_mounted, serves_certificate,
  keeper_serves_certificate, cleanup_unmounted, cleanup_tls,
}
use provider_altinity_clickh.Sync.{Surroundings}
use provider_altinity_clickh.Sync.Effects.{Watched, watched, Holds}
use provider_altinity_clickh.Sync.Preparing.{delete_all-Holds}

-- The end of applyAndWaitForCHI, from the live CHI on.
abbrev pub after_chi : Surroundings → Instance → Chi → Exec (Unit {0})
after_chi env instance_ current = do
  reconcile_plaintext_policy env.environment instance_ current
  lift (wait_for_chi current)
  if not (Tls.tls_enabled instance_)
      then cleanup_tls env.runtime.has_certificate_file instance_ current
      else pure tt

module _ (w : Watched) where
  reconcile_policy-Holds :
      (environment : OperatorEnvironment) (name : String) (wanted : Bool)
      (build : Peer → NetworkPolicy)
      → Holds w (reconcile_policy environment name wanted build)
  unfolding reconcile_policy
  reconcile_policy-Holds environment name true build =
      >>=-Keeps (watched w) (lift (operator_peer environment)) _ (lift-Keeps (watched w) _)
        (λ op. record { keeps = λ api h. refl })
  reconcile_policy-Holds environment name false build = record { keeps = λ api h. ground arith }

  reconcile_plaintext_policy-Holds :
      (environment : OperatorEnvironment) (instance_ : Instance) (chi : Chi)
      → Holds w (reconcile_plaintext_policy environment instance_ chi)
  unfolding reconcile_plaintext_policy
  reconcile_plaintext_policy-Holds environment instance_ chi =
      >>=-Keeps (watched w) _ _ (reconcile_policy-Holds environment _ _ _)
        (λ done. reconcile_policy-Holds environment _ _ _)

  delete_tls_resources-Holds : (instance_ : Instance) → Holds w (delete_tls_resources instance_)
  unfolding delete_tls_resources
  delete_tls_resources-Holds instance_ = delete_all-Holds w (tls_resources instance_.name)

  server_secret_mounted-Holds : (instance_ : Instance) → Holds w (server_secret_mounted instance_)
  unfolding server_secret_mounted
  server_secret_mounted-Holds instance_ = record { keeps = λ api h. ground arith }

  module _ (has : Settings → Bool) (instance_ : Instance) where
    cleanup_unmounted-Holds : Holds w (cleanup_unmounted has instance_)
    unfolding cleanup_unmounted
    cleanup_unmounted-Holds =
        >>=-Keeps (watched w) (optional_secret (server_secret_name instance_.name)) _
          (record { keeps = λ api h. refl })
          (λ server.
            >>=-Keeps (watched w) (optional_secret (ca_secret_name instance_.name)) _
              (record { keeps = λ api h. refl })
              (λ ca_secret.
                if-Keeps (watched w) (not (is_some server) && not (is_some ca_secret)) _ _
                  (record { keeps = λ api h. refl }) (delete_tls_resources-Holds instance_)))

    cleanup_tls-Holds : (chi : Chi) → Holds w (cleanup_tls has instance_ chi)
    unfolding cleanup_tls
    cleanup_tls-Holds chi =
        if-Keeps (watched w) (serves_certificate has chi.spec) (pure tt) _
          (record { keeps = λ api h. refl })
          (>>=-Keeps (watched w) (get_chk (keeper_cr_name instance_.name)) _
            (record { keeps = λ api h. refl })
            (λ answer.
              >>=-Keeps (watched w) (lift (optional_result (keeper_cr_name instance_.name) answer))
                _ (lift-Keeps (watched w) _)
                (λ chk.
                  if-Keeps (watched w) (keeper_serves_certificate has chk) (pure tt) _
                    (record { keeps = λ api h. refl })
                    (>>=-Keeps (watched w) _ _ (server_secret_mounted-Holds instance_) (λ mounted.
                      if-Keeps (watched w) mounted (pure tt) _ (record { keeps = λ api h. refl })
                        cleanup_unmounted-Holds)))))

  pub after_chi-Holds :
      (env : Surroundings) (instance_ : Instance) (chi : Chi)
      → Holds w (after_chi env instance_ chi)
  after_chi-Holds env instance_ chi =
      >>=-Keeps (watched w) (reconcile_plaintext_policy env.environment instance_ chi) _
        (reconcile_plaintext_policy-Holds env.environment instance_ chi)
        (λ done.
          >>=-Keeps (watched w) (lift (wait_for_chi chi)) _ (lift-Keeps (watched w) _) (λ waited.
            if-Keeps (watched w) (not (Tls.tls_enabled instance_)) _ _
              (cleanup_tls-Holds env.runtime.has_certificate_file instance_ chi)
              (record { keeps = λ api h. refl })))
