-- ===== src/Tls/Resources.antt =====
-- internal/provider/tls.go: the cert-manager objects that are applied with TLS on and deleted with
-- TLS off.
pub mod Cleanup
use provider_altinity_clickh.Prelude.{
  ℕ, String, Bool, true, false, not, ◌&&◌, ◌||◌, Option, none, some, List, [], ◌∷◌, ◌++◌,
  if◌then◌else◌, any, length, is_some,
}
use provider_altinity_clickh.Prelude.Text.{str_eq, is_empty}
use provider_altinity_clickh.Prelude.Result.{
  Error, wait, not_found, no_match, failure, wrapped, Result, ok, err,
}
use provider_altinity_clickh.Common.{label_chi_name, label_chk_name}
use provider_altinity_clickh.Operator.{Chi, Chk, Configuration, InstallationSpec, Settings}
use provider_altinity_clickh.Instance.{Instance, IssuerRef, TlsParameters, is_replicated_topology}
use provider_altinity_clickh.Cluster.Objects.{IssuerReference, self_signed, ca, Certificate}
use provider_altinity_clickh.Cluster.Secret.{Data, get}
use provider_altinity_clickh.Cluster.{
  Kind, Object, Ingress, LiveService, Pod, Exec, pure, lift, raise, ◌>>=◌, ◌>>◌, wrap, wrap_error,
  attempt, optional_result, get_chk, get_secret, get_service, list_pods, apply, delete, secret_kind,
  issuer_kind, certificate_kind,
}
use provider_altinity_clickh.Cluster
use provider_altinity_clickh.Sizing.{replicas_count}
use provider_altinity_clickh.Tls.{
  tls_parameters, client_service_name, keeper_cr_name, server_dns_names, keeper_dns_names,
  self_signed_issuer_name, ca_cert_name, ca_issuer_name, ca_secret_name, server_cert_name,
  server_secret_name,
}

abbrev pub is_no_match_error : Error → Bool
is_no_match_error no_match = true
is_no_match_error _ = false

-- A deletion that fails because the kind is not installed counts as done.
unfoldable pub delete_outcome : Result (Unit {0}) → Result (Unit {0})
delete_outcome (ok tt) = ok tt
delete_outcome (err e) = if is_no_match_error e then ok tt else err (wrapped "delete" e)

unfoldable pub delete_all : List (Kind × String) → Exec (Unit {0})
unfolding delete_outcome
delete_all [] = pure tt
delete_all ((kind, name) ∷ objects) = do
  outcome ← attempt (delete kind name)
  lift (delete_outcome outcome)
  delete_all objects

abbrev pub tls_resources : String → List (Kind × String)
tls_resources name =
    (certificate_kind, server_cert_name name)
    ∷ (secret_kind, server_secret_name name)
    ∷ (certificate_kind, ca_cert_name name)
    ∷ (issuer_kind, ca_issuer_name name)
    ∷ (issuer_kind, self_signed_issuer_name name)
    ∷ (secret_kind, ca_secret_name name)
    ∷ []

abbrev pub ca_chain : String → List (Kind × String)
ca_chain name =
    (certificate_kind, ca_cert_name name)
    ∷ (issuer_kind, ca_issuer_name name)
    ∷ (issuer_kind, self_signed_issuer_name name)
    ∷ (secret_kind, ca_secret_name name)
    ∷ []

unfoldable pub delete_tls_resources : Instance → Exec (Unit {0})
unfolding delete_all
delete_tls_resources instance_ = delete_all (tls_resources instance_.name)

-- getOptional on a Secret
abbrev pub optional_secret : String → Exec (Option Data)
optional_secret name = get_secret name >>= λ answer. lift (optional_result name answer)

unfoldable pub delete_ca_chain : Instance → Exec (Unit {0})
unfolding delete_all
delete_ca_chain instance_ = do
  found ← optional_secret (ca_secret_name instance_.name)
  if is_some found then delete_all (ca_chain instance_.name) else pure tt

abbrev or_default : String → String → String
or_default value fallback = if is_empty value then fallback else value

abbrev own_chain : Option IssuerRef → Bool
own_chain none = true
own_chain (some override) = is_empty override.name

unfoldable pub managed_issuer : Instance → Exec IssuerReference
managed_issuer instance_ =
    let name = instance_.name in
    let cert_manager : String = "cert-manager.io" in
    do
      wrap "apply self-signed issuer"
          (apply (Object.issuer (self_signed_issuer_name name) self_signed))
      wrap "apply CA certificate" (
          apply (
            Object.certificate (record {
              name = ca_cert_name name;
              is_ca = true;
              secret_name = ca_secret_name name;
              common_name = ca_cert_name name;
              dns_names = [];
              ip_addresses = [];
              issuer_ref = record {
                name = self_signed_issuer_name name;
                kind = "Issuer";
                group = cert_manager;
              };
            })))
      wrap "apply CA issuer"
          (apply (Object.issuer (ca_issuer_name name) (ca (ca_secret_name name))))
      pure (record { name = ca_issuer_name name; kind = "Issuer"; group = cert_manager })

unfoldable pub ensure_issuer : Instance → Option IssuerRef → Exec IssuerReference
unfolding managed_issuer delete_ca_chain
ensure_issuer instance_ none = managed_issuer instance_
ensure_issuer instance_ (some override) =
    if is_empty override.name then managed_issuer instance_ else do
      delete_ca_chain instance_
      pure (record {
        name = override.name;
        kind = or_default override.kind "Issuer";
        group = or_default override.group "cert-manager.io";
      })

-- externalAddresses: the hostnames and the IPs of a LoadBalancer.
abbrev add_if : String → List String → List String
add_if value values = if is_empty value then values else value ∷ values

unfoldable pub ingress_names : List Ingress → List String
ingress_names [] = []
ingress_names (i ∷ ingress) = add_if i.hostname (ingress_names ingress)

unfoldable pub ingress_ips : List Ingress → List String
ingress_ips [] = []
ingress_ips (i ∷ ingress) = add_if i.ip (ingress_ips ingress)

unfoldable pub service_addresses : Option LiveService → List String × List String
unfolding ingress_names ingress_ips
service_addresses none = ([], [])
service_addresses (some svc) =
    if str_eq svc.service_type "LoadBalancer"
    then (ingress_names svc.ingress, ingress_ips svc.ingress)
    else ([], [])

unfoldable pub external_addresses : Instance → Exec (List String × List String)
unfolding service_addresses
external_addresses instance_ = do
  answer ← get_service (client_service_name instance_.name)
  svc ← lift (optional_result (client_service_name instance_.name) answer)
  pure (service_addresses svc)

-- The names of the certificate besides external ones.
unfoldable pub cluster_dns_names : Instance → List String
unfolding server_dns_names keeper_dns_names replicas_count
cluster_dns_names instance_ =
    if is_replicated_topology instance_
    then server_dns_names instance_.name instance_.namespace (replicas_count instance_)
      ++ keeper_dns_names instance_.name instance_.namespace
    else server_dns_names instance_.name instance_.namespace 1

unfoldable pub server_certificate :
    Instance → IssuerReference → List String × List String → Certificate
unfolding cluster_dns_names
server_certificate instance_ issuer_ref (names, ips) = record {
  name = server_cert_name instance_.name;
  is_ca = false;
  secret_name = server_secret_name instance_.name;
  common_name = client_service_name instance_.name;
  dns_names = cluster_dns_names instance_ ++ names;
  ip_addresses = ips;
  issuer_ref = issuer_ref;
}

unfoldable pub ensure_server_certificate : Instance → IssuerReference → Exec (Unit {0})
unfolding external_addresses server_certificate
ensure_server_certificate instance_ issuer_ref = do
  addresses ← external_addresses instance_
  wrap "apply server certificate"
      (apply (Object.certificate (server_certificate instance_ issuer_ref addresses)))

unfoldable pub has_certificate : Option Data → Bool
has_certificate none = false
has_certificate (some data_) = not (is_empty (get "tls.crt" data_))

unfoldable pub server_certificate_issued : Instance → Exec Bool
unfolding has_certificate
server_certificate_issued instance_ = do
  found ← optional_secret (server_secret_name instance_.name)
  pure (has_certificate found)

unfoldable pub issuer_override : Option TlsParameters → Option IssuerRef
issuer_override none = none
issuer_override (some params) = params.issuer_ref

unfoldable pub ensure_tls : Instance → Exec (Unit {0})
unfolding ensure_issuer ensure_server_certificate server_certificate_issued issuer_override
ensure_tls instance_ = do
  issuer_ref ← ensure_issuer instance_ (issuer_override (tls_parameters instance_))
  ensure_server_certificate instance_ issuer_ref
  issued ← server_certificate_issued instance_
  if issued
      then pure tt
      else raise (wait "waiting for cert-manager to issue the server certificate" 15)

-- serverSecretMounted: the pods of ClickHouse, then those of Keeper.
unfoldable pub mounts : String → List Pod → Bool
mounts name pods = any (λ pod. any (λ volume. str_eq volume name) pod.secret_volumes) pods

unfoldable pub server_secret_mounted : Instance → Exec Bool
unfolding mounts
server_secret_mounted instance_ = do
  clickhouse ← wrap "list pods" (list_pods label_chi_name instance_.name)
  if mounts (server_secret_name instance_.name) clickhouse then pure true else do
    keeper ← wrap "list pods" (list_pods label_chk_name (keeper_cr_name instance_.name))
    pure (mounts (server_secret_name instance_.name) keeper)

-- `has_certificate_file` is Settings.Has("server.crt") of the operator's package, on the files of a
-- CHI or CHK.
module _ (has_certificate_file : Settings → Bool) where
  unfoldable pub files_of : Option Configuration → Option Settings
  files_of none = none
  files_of (some configuration) = configuration.files

  unfoldable pub serves_certificate : InstallationSpec → Bool
  unfolding files_of
  serves_certificate spec = elim (files_of spec.configuration) [
    | none ↦ false
    | some files ↦ has_certificate_file files
  ]

  unfoldable pub keeper_serves_certificate : Option Chk → Bool
  unfolding serves_certificate
  keeper_serves_certificate none = false
  keeper_serves_certificate (some chk) = serves_certificate chk.spec

  -- cleanupTLS, once ClickHouse itself is found not to be configured with the certificate
  unfoldable pub cleanup_unmounted : Instance → Exec (Unit {0})
  cleanup_unmounted instance_ = do
    server ← optional_secret (server_secret_name instance_.name)
    ca_secret ← optional_secret (ca_secret_name instance_.name)
    if not (is_some server) && not (is_some ca_secret)
        then pure tt
        else delete_tls_resources instance_

  unfoldable pub cleanup_tls : Instance → Chi → Exec (Unit {0})
  unfolding cleanup_unmounted keeper_serves_certificate
  cleanup_tls instance_ chi = if serves_certificate chi.spec then pure tt else do
    answer ← get_chk (keeper_cr_name instance_.name)
    chk ← lift (optional_result (keeper_cr_name instance_.name) answer)
    if keeper_serves_certificate chk then pure tt else do
      mounted ← server_secret_mounted instance_
      if mounted then pure tt else cleanup_unmounted instance_
