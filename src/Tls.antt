-- ===== src/Tls.antt =====
-- internal/provider/tls.go: the TLS parameters, the names that the certificates cover, and the
-- cert-manager objects.
pub mod Resources
use Prim.Native.String.{len, slice}
use provider_altinity_clickh.Prelude.{
  ℕ, zero, suc, ◌+◌, String, Bool, true, false, not, ◌&&◌, ◌||◌, Option, none, some, List, [], ◌∷◌,
  ◌++◌, if◌then◌else◌, ltb,
}
use provider_altinity_clickh.Prelude.Int.{pos}
use provider_altinity_clickh.Prelude.Decimal.{itoa}
use provider_altinity_clickh.Prelude.Text.{str_eq, is_empty, equal_fold, trim_separators, ◌<>◌}
use provider_altinity_clickh.Common
use provider_altinity_clickh.Common.{
  chi_cluster_name, chk_cluster_name, keeper_replicas, tls_mode_required, tls_mode_optional,
  self_signed_issuer_suffix, ca_issuer_suffix, ca_cert_secret_suffix, server_cert_suffix,
  server_cert_secret_suffix,
}
use provider_altinity_clickh.Instance.{
  Instance, ComponentSpec, ClickHouseParameters, TlsParameters, engine_of,
}

decoded_tls : Option ClickHouseParameters → Option TlsParameters
decoded_tls none = none
decoded_tls (some params) = params.tls

unfoldable pub tls_parameters : Instance → Option TlsParameters
unfolding decoded_tls
tls_parameters instance_ = decoded_tls (engine_of instance_).parameters

unfoldable pub is_enabled : Option TlsParameters → Bool
is_enabled none = false
is_enabled (some params) = equal_fold params.enabled Common.tls_enabled

-- `tls.Mode` is read only where TLS is enabled, so the parameters are there.
unfoldable pub is_optional : Option TlsParameters → Bool
is_optional none = false
is_optional (some params) = equal_fold params.mode tls_mode_optional

unfoldable pub tls_enabled : Instance → Bool
unfolding tls_parameters is_enabled
tls_enabled instance_ = is_enabled (tls_parameters instance_)

unfoldable pub tls_required : Instance → Bool
unfolding tls_enabled is_optional
tls_required instance_ = tls_enabled instance_ && not (is_optional (tls_parameters instance_))

unfoldable pub tls_mode : Instance → String
unfolding tls_required
tls_mode instance_ =
    if not (tls_enabled instance_)
    then ""
    else if tls_required instance_
    then tls_mode_required
    else tls_mode_optional

-- The names of the objects that the operator creates.
unfoldable pub trim_cr_name : String → String
unfolding trim_separators
trim_cr_name name = trim_separators (if ltb 60 (len name) then slice name 0 60 else name)

abbrev pub keeper_cr_name : String → String
keeper_cr_name instance_name = instance_name <> "-keeper"

abbrev pub client_service_name : String → String
client_service_name instance_name = "clickhouse-" <> instance_name

-- `for i := from; i < from + n; i++`
unfoldable pub numbered : String → ℕ → ℕ → List String
numbered prefix from zero = []
numbered prefix from (suc n) = (prefix <> itoa (pos from)) ∷ numbered prefix (from + 1) n

unfoldable pub replica_service_names : String → ℕ → List String
unfolding numbered
replica_service_names instance_name replicas =
    numbered ("chi-" <> trim_cr_name instance_name <> "-" <> chi_cluster_name <> "-0-") 0 replicas

unfoldable pub keeper_host_names : String → List String
unfolding numbered
keeper_host_names instance_name =
    numbered
      ("chk-" <> trim_cr_name (keeper_cr_name instance_name) <> "-" <> chk_cluster_name <> "-0-") 0
      keeper_replicas

unfoldable pub with_client_suffix : List String → List String
with_client_suffix [] = []
with_client_suffix (host ∷ hosts) = (host <> "-client") ∷ with_client_suffix hosts

unfoldable pub keeper_client_service_names : String → List String
unfolding keeper_host_names with_client_suffix
keeper_client_service_names instance_name = with_client_suffix (keeper_host_names instance_name)

unfoldable pub service_dns_names : List String → String → List String
service_dns_names [] namespace = []
service_dns_names (svc ∷ services) namespace =
    svc
    ∷ (svc <> "." <> namespace)
    ∷ (svc <> "." <> namespace <> ".svc")
    ∷ (svc <> "." <> namespace <> ".svc.cluster.local")
    ∷ service_dns_names services namespace

unfoldable pub pod_wildcards : List String → String → List String
pod_wildcards [] namespace = []
pod_wildcards (svc ∷ services) namespace =
    ("*." <> svc <> "." <> namespace <> ".svc.cluster.local") ∷ pod_wildcards services namespace

unfoldable pub server_dns_names : String → String → ℕ → List String
unfolding service_dns_names pod_wildcards
server_dns_names instance_name namespace replicas =
    let replica_services = replica_service_names instance_name replicas in
    service_dns_names (client_service_name instance_name ∷ replica_services) namespace
    ++ pod_wildcards replica_services namespace

unfoldable pub keeper_dns_names : String → String → List String
unfolding service_dns_names
keeper_dns_names instance_name namespace =
    service_dns_names
      ((("keeper-" <> trim_cr_name (keeper_cr_name instance_name))
          ∷ keeper_host_names instance_name)
        ++ keeper_client_service_names instance_name)
      namespace

abbrev pub self_signed_issuer_name : String → String
self_signed_issuer_name instance_name = instance_name <> self_signed_issuer_suffix

abbrev pub ca_cert_name : String → String
ca_cert_name instance_name = instance_name <> ca_issuer_suffix

abbrev pub ca_issuer_name : String → String
ca_issuer_name instance_name = instance_name <> ca_issuer_suffix

abbrev pub ca_secret_name : String → String
ca_secret_name instance_name = instance_name <> ca_cert_secret_suffix

abbrev pub server_cert_name : String → String
server_cert_name instance_name = instance_name <> server_cert_suffix

abbrev pub server_secret_name : String → String
server_secret_name instance_name = instance_name <> server_cert_secret_suffix
