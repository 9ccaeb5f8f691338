-- ===== src/Expose.antt =====
-- internal/provider/provider.go, configureExpose; the client ports of connection.go; and
-- appliedTLSRequired of netpol.go, which reads a mode back from an applied CHI. The operator's port
-- names and numbers are constants of its package: the parameter `OperatorPorts`.
pub mod Modes
use provider_altinity_clickh.Prelude.{
  ℕ, String, Bool, true, false, not, ◌&&◌, ◌||◌, Option, none, some, List, [], ◌∷◌, ◌++◌,
  if◌then◌else◌, any, ◌==◌,
}
use provider_altinity_clickh.Prelude.Text.{str_eq, is_empty}
use provider_altinity_clickh.Common.{
  service_template_name, tls_mode_required, http_port, tcp_port, https_port, tcp_secure_port,
  connection_key_http_port, connection_key_native_port, connection_key_https_port,
  connection_key_native_secure_port,
}
use provider_altinity_clickh.Operator.{
  ServicePort, ServiceTemplate, Templates, InstallationSpec, Chi,
}
use provider_altinity_clickh.Instance.{Service}

pub record OperatorPorts : Type 0 where
  pub http : ServicePort
  pub tcp : ServicePort
  pub https : ServicePort
  pub tls : ServicePort

module _ (operator_ports : OperatorPorts) where
  unfoldable pub service_ports : String → List ServicePort
  service_ports mode =
      (if str_eq mode tls_mode_required then [] else operator_ports.http ∷ operator_ports.tcp ∷ [])
      ++ (if is_empty mode then [] else operator_ports.https ∷ operator_ports.tls ∷ [])

  -- The operator's default Service is headless, and stays so where the Service is not exposed.
  headless : String → ServiceTemplate
  headless mode = record {
    name = service_template_name;
    annotations = [];
    service_type = "ClusterIP";
    cluster_ip = "None";
    source_ranges = [];
    ports = service_ports mode;
  }

  unfoldable pub source_ranges_of : Service → List String
  source_ranges_of service =
      if str_eq service.service_type "LoadBalancer"
      then elim service.load_balancer_source_ranges [ none ↦ [] | some ranges ↦ ranges ]
      else []

  unfoldable pub exposed_template : Service → String → ServiceTemplate
  unfolding source_ranges_of
  exposed_template service mode = record {
    name = service_template_name;
    annotations = service.annotations;
    service_type = service.service_type;
    cluster_ip = "";
    source_ranges = source_ranges_of service;
    ports = service_ports mode;
  }

  -- The template of the root Service, if there is to be one.
  unfoldable pub expose_template : Option Service → String → Option ServiceTemplate
  unfolding headless exposed_template
  expose_template none mode = if is_empty mode then none else some (headless mode)
  expose_template (some service) mode =
      if is_empty service.service_type
      then (if is_empty mode then none else some (headless mode))
      else some (exposed_template service mode)

  abbrev empty_templates : Templates
  empty_templates = record {
    pod_templates = [];
    volume_claim_templates = [];
    service_templates = [];
  }

  unfoldable pub with_service_template : ServiceTemplate → Option Templates → Templates
  with_service_template tmpl none = record (empty_templates) { service_templates = tmpl ∷ [] }
  with_service_template tmpl (some t) = record t {
    service_templates = t.service_templates ++ tmpl ∷ [];
  }

  unfoldable pub add_template : InstallationSpec → Option ServiceTemplate → InstallationSpec
  unfolding with_service_template
  add_template spec none = spec
  add_template spec (some tmpl) = record spec {
    templates = some (with_service_template tmpl spec.templates);
    default_service_template = some service_template_name;
  }

  unfoldable pub configure_expose : InstallationSpec → Option Service → String → InstallationSpec
  unfolding add_template expose_template
  configure_expose spec service mode = add_template spec (expose_template service mode)

-- clientPorts: the ports that clients may use, by connection details key.
unfoldable pub client_ports : String → List (String × ℕ)
client_ports mode =
    (if str_eq mode tls_mode_required
      then []
      else (connection_key_http_port, http_port) ∷ (connection_key_native_port, tcp_port) ∷ [])
    ++ (if is_empty mode
        then []
        else (connection_key_https_port, https_port)
          ∷ (connection_key_native_secure_port, tcp_secure_port)
          ∷ [])

abbrev pub is_secure_port : ServicePort → Bool
is_secure_port p = p.port == https_port || p.port == tcp_secure_port

abbrev pub is_plaintext_port : ServicePort → Bool
is_plaintext_port p = p.port == http_port || p.port == tcp_port

-- The first template of the root Service decides.
unfoldable pub templates_require_tls : List ServiceTemplate → Bool
templates_require_tls [] = false
templates_require_tls (tmpl ∷ templates) =
    if str_eq tmpl.name service_template_name
    then any is_secure_port tmpl.ports && not (any is_plaintext_port tmpl.ports)
    else templates_require_tls templates

unfoldable pub applied_tls_required : Chi → Bool
unfolding templates_require_tls
applied_tls_required chi = elim chi.spec.templates [
  | none ↦ false
  | some t ↦ templates_require_tls t.service_templates
]
