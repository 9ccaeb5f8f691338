-- ===== src/Sync/Progress/Certificates.antt =====
-- In a healthy cluster the certificates do not hold a Sync up.
use provider_altinity_clickh.Prelude.{
  ◌≡◌, refl, ap, String, true, Option, none, some, List, [], ◌∷◌, arith, is_some,
}
use provider_altinity_clickh.Prelude.Text.{is_empty}
use provider_altinity_clickh.Prelude.Result.{ok}
use provider_altinity_clickh.Instance.{Instance, IssuerRef}
use provider_altinity_clickh.Cluster.Objects.{IssuerReference}
use provider_altinity_clickh.Cluster.{Kind, Api, History, pure, lift, attempt, delete}
use provider_altinity_clickh.Cluster.Success.{
  IsHealthy, Any, Gives, optional-ok, >>=-Gives, lift-Gives, if-Gives,
}
use provider_altinity_clickh.Tls.{
  ca_secret_name, ca_issuer_name, client_service_name, tls_parameters,
}
use provider_altinity_clickh.Tls.Resources.{
  optional_secret, delete_all, delete_outcome, delete_ca_chain, ca_chain, managed_issuer,
  ensure_issuer, issuer_override, external_addresses, ensure_server_certificate,
  server_certificate_issued, ensure_tls,
}

module _ (api : Api) (healthy : IsHealthy api) where
  pub delete_all-Gives : (objects : List (Kind × String)) → Gives api Any (delete_all objects)
  unfolding delete_all delete_outcome
  delete_all-Gives [] = record { gives = λ h. (tt, refl, tt) }
  delete_all-Gives ((kind, name) ∷ objects) =
      >>=-Gives api (λ r. r ≡ ok tt) Any (attempt (delete kind name)) _
        (record { gives = λ h. (ok tt, ap (λ r. ok r) (healthy.deletes h kind name), refl) })
        (λ outcome same.
          >>=-Gives api Any Any (lift (delete_outcome outcome)) _
            (lift-Gives api Any (delete_outcome outcome) tt (ap delete_outcome same) tt)
            (λ done any. delete_all-Gives objects))

  pub secret-Gives : (name : String) → Gives api Any (optional_secret name)
  secret-Gives name = record {
    gives = λ h.
        let (o, e) = optional-ok name (api.read_secret h name) (healthy.secrets h name) in
        (o, rw e refl, tt);
  }

  managed_issuer-Gives : (instance_ : Instance) → Gives api Any (managed_issuer instance_)
  unfolding managed_issuer
  managed_issuer-Gives instance_ = record {
    gives = λ h. (
      record { name = ca_issuer_name instance_.name; kind = "Issuer"; group = "cert-manager.io" },
      grind (arith, healthy.applies),
      tt,
    );
  }

  delete_ca_chain-Gives : (instance_ : Instance) → Gives api Any (delete_ca_chain instance_)
  unfolding delete_ca_chain
  delete_ca_chain-Gives instance_ =
      >>=-Gives api Any Any (optional_secret (ca_secret_name instance_.name)) _ (secret-Gives _)
        (λ answer any.
          if-Gives api Any (is_some answer) (delete_all (ca_chain instance_.name)) (pure tt)
            (λ e. delete_all-Gives (ca_chain instance_.name))
            (λ e. record { gives = λ h. (tt, refl, tt) }))

  ensure_issuer-Gives :
      (instance_ : Instance) (override : Option IssuerRef)
      → Gives api Any (ensure_issuer instance_ override)
  unfolding ensure_issuer
  ensure_issuer-Gives instance_ none = managed_issuer-Gives instance_
  ensure_issuer-Gives instance_ (some override) =
      if-Gives api Any (is_empty override.name) (managed_issuer instance_) _
        (λ e. managed_issuer-Gives instance_)
        (λ e.
          >>=-Gives api Any Any (delete_ca_chain instance_) _ (delete_ca_chain-Gives instance_)
            (λ done any. record { gives = λ h. (_, refl, tt) }))

  ensure_server_certificate-Gives :
      (instance_ : Instance) (issuer_ref : IssuerReference)
      → Gives api Any (ensure_server_certificate instance_ issuer_ref)
  unfolding ensure_server_certificate external_addresses
  ensure_server_certificate-Gives instance_ issuer_ref = record {
    gives = λ h.
        let (o, e) =
          optional-ok (client_service_name instance_.name)
            (api.read_service h (client_service_name instance_.name))
            (healthy.services h (client_service_name instance_.name)) in
        (tt, rw e (grind (arith, healthy.applies)), tt);
  }

  pub ensure_tls-Gives :
      (instance_ : Instance)
      → ((h : History) → (server_certificate_issued instance_ api h).0 ≡ ok true)
      → Gives api Any (ensure_tls instance_)
  unfolding ensure_tls
  ensure_tls-Gives instance_ issued =
      >>=-Gives api Any Any (ensure_issuer instance_ (issuer_override (tls_parameters instance_))) _
        (ensure_issuer-Gives instance_ (issuer_override (tls_parameters instance_)))
        (λ issuer_ref any.
          >>=-Gives api Any Any (ensure_server_certificate instance_ issuer_ref) _
            (ensure_server_certificate-Gives instance_ issuer_ref)
            (λ done any'.
              >>=-Gives api (λ b. b ≡ true) Any (server_certificate_issued instance_) _
                (record { gives = λ h. (true, issued h, refl) })
                (λ b is_true. rw is_true (record { gives = λ h. (tt, refl, tt) }))))
