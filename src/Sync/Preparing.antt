-- ===== src/Sync/Preparing.antt =====
-- The rest of a Sync applies no CHI either: the credentials, the certificates, the PodMonitor and
-- the status that it publishes.
use provider_altinity_clickh.Prelude.{refl, String, Option, none, some, List, [], ◌∷◌, arith}
use provider_altinity_clickh.Instance.{Instance, IssuerRef}
use provider_altinity_clickh.Cluster.Objects.{IssuerReference}
use provider_altinity_clickh.Cluster.Secret.{Data}
use provider_altinity_clickh.Cluster.{
  Read, found, missing, failed, Kind, lift, attempt, get_secret, delete,
}
use provider_altinity_clickh.Prelude.{is_some}
use provider_altinity_clickh.Prelude.Text.{is_empty}
use provider_altinity_clickh.Cluster.Effects.{>>=-Keeps, lift-Keeps, if-Keeps}
use provider_altinity_clickh.Rollout.{credentials_secret_name}
use provider_altinity_clickh.Credentials.{
  Crypto, seed_credentials, seed_from, start_from, store, ensure_credentials, complete,
}
use provider_altinity_clickh.Tls.{tls_parameters, ca_secret_name}
use provider_altinity_clickh.Tls.Resources.{
  optional_secret, delete_outcome, delete_all, delete_ca_chain, managed_issuer, ensure_issuer,
  external_addresses, ensure_server_certificate, server_certificate_issued, ensure_tls,
  issuer_override, ca_chain,
}
use provider_altinity_clickh.Monitoring.{delete_pod_monitor, reconcile_pod_monitor}
use provider_altinity_clickh.Sync.Effects.{Watched, watched, Holds}

module _ (w : Watched) where
  seed_from-Holds : (crypto : Crypto) (ref : Option String) → Holds w (seed_from crypto ref)
  unfolding seed_from
  seed_from-Holds crypto none = record { keeps = λ api h. refl }
  seed_from-Holds crypto (some ref) = record { keeps = λ api h. refl }

  start_from-Holds :
      (crypto : Crypto) (instance_ : Instance) (answer : Read Data)
      → Holds w (start_from crypto instance_ answer)
  unfolding start_from seed_credentials
  start_from-Holds crypto instance_ (found data_) = record { keeps = λ api h. refl }
  start_from-Holds crypto instance_ missing =
      >>=-Keeps (watched w) _ _ (seed_from-Holds crypto instance_.user_secret_ref)
        (λ seed. record { keeps = λ api h. refl })
  start_from-Holds crypto instance_ (failed e) = record { keeps = λ api h. refl }

  store-Holds :
      (instance_ : Instance) (existing : Option Data) (data_ : Data)
      → Holds w (store instance_ existing data_)
  unfolding store
  store-Holds instance_ none data_ = record { keeps = λ api h. ground arith }
  store-Holds instance_ (some existing) data_ = record { keeps = λ api h. ground arith }

  pub ensure_credentials-Holds :
      (crypto : Crypto) (instance_ : Instance) → Holds w (ensure_credentials crypto instance_)
  unfolding ensure_credentials
  ensure_credentials-Holds crypto instance_ =
      >>=-Keeps (watched w) (get_secret (credentials_secret_name instance_.name)) _
        (record { keeps = λ api h. refl })
        (λ answer. >>=-Keeps (watched w) _ _ (start_from-Holds crypto instance_ answer) (λ start.
          >>=-Keeps (watched w) (lift (complete crypto start.1)) _ (lift-Keeps (watched w) _)
            (λ data_. store-Holds instance_ start.0 data_)))

  pub delete_all-Holds : (objects : List (Kind × String)) → Holds w (delete_all objects)
  unfolding delete_all
  delete_all-Holds [] = record { keeps = λ api h. refl }
  delete_all-Holds ((kind, name) ∷ objects) =
      >>=-Keeps (watched w) (attempt (delete kind name)) _ (record { keeps = λ api h. refl })
        (λ outcome.
          >>=-Keeps (watched w) (lift (delete_outcome outcome)) _ (lift-Keeps (watched w) _)
            (λ done. delete_all-Holds objects))

  delete_ca_chain-Holds : (instance_ : Instance) → Holds w (delete_ca_chain instance_)
  unfolding delete_ca_chain
  delete_ca_chain-Holds instance_ =
      >>=-Keeps (watched w) (optional_secret (ca_secret_name instance_.name)) _
        (record { keeps = λ api h. ground arith })
        (λ answer.
          if-Keeps (watched w) (is_some answer) _ _ (delete_all-Holds (ca_chain instance_.name))
            (record { keeps = λ api h. refl }))

  managed_issuer-Holds : (instance_ : Instance) → Holds w (managed_issuer instance_)
  unfolding managed_issuer
  managed_issuer-Holds instance_ = record { keeps = λ api h. ground arith }

  ensure_issuer-Holds :
      (instance_ : Instance) (override : Option IssuerRef)
      → Holds w (ensure_issuer instance_ override)
  unfolding ensure_issuer
  ensure_issuer-Holds instance_ none = managed_issuer-Holds instance_
  ensure_issuer-Holds instance_ (some override) =
      if-Keeps (watched w) (is_empty override.name) _ _ (managed_issuer-Holds instance_) (
        >>=-Keeps (watched w) _ _ (delete_ca_chain-Holds instance_)
          (λ done. record { keeps = λ api h. refl }))

  ensure_server_certificate-Holds :
      (instance_ : Instance) (issuer_ref : IssuerReference)
      → Holds w (ensure_server_certificate instance_ issuer_ref)
  unfolding ensure_server_certificate external_addresses
  ensure_server_certificate-Holds instance_ issuer_ref = record { keeps = λ api h. ground arith }

  pub ensure_tls-Holds : (instance_ : Instance) → Holds w (ensure_tls instance_)
  unfolding ensure_tls server_certificate_issued
  ensure_tls-Holds instance_ =
      >>=-Keeps (watched w) _ _
        (ensure_issuer-Holds instance_ (issuer_override (tls_parameters instance_)))
        (λ issuer_ref.
          >>=-Keeps (watched w) _ _ (ensure_server_certificate-Holds instance_ issuer_ref)
            (λ done. record { keeps = λ api h. ground arith }))

  pub reconcile_pod_monitor-Holds :
      (instance_ : Instance) → Holds w (reconcile_pod_monitor instance_)
  unfolding reconcile_pod_monitor delete_pod_monitor
  reconcile_pod_monitor-Holds instance_ = record { keeps = λ api h. ground arith }
