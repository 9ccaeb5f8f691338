-- ===== src/Expose/Modes.antt =====
-- The TLS modes, from the Instance to the Service that clients connect to, and back.
use provider_altinity_clickh.Prelude.{
  ◌≡◌, refl, ◌⊎◌, inl, inr, String, Bool, not, ◌&&◌, Option, none, some, List, [], map, arith, any,
  Bool-cases, if-elim,
}
use provider_altinity_clickh.Prelude.Text.{str_eq, is_empty, is_empty_iff}
use provider_altinity_clickh.Common.{
  service_template_name, http_port, tcp_port, https_port, tcp_secure_port, tls_mode_required,
  tls_mode_optional,
}
use provider_altinity_clickh.Operator.{ServicePort, ServiceTemplate, Templates, Chi}
use provider_altinity_clickh.Instance.{Instance, Service}
use provider_altinity_clickh.Tls.{tls_mode}
use provider_altinity_clickh.Expose.{
  OperatorPorts, expose_template, configure_expose, client_ports, applied_tls_required,
  add_template, service_ports, is_secure_port, is_plaintext_port,
}

-- The operator's documented default ports.
pub record DefaultPorts (ports : OperatorPorts) : Type 0 where
  pub http : ports.http.port ≡ http_port
  pub tcp : ports.tcp.port ≡ tcp_port
  pub https : ports.https.port ≡ https_port
  pub tls : ports.tls.port ≡ tcp_secure_port

abbrev pub IsMode : String → Type 0
IsMode mode = (mode ≡ "") ⊎ (mode ≡ tls_mode_required) ⊎ (mode ≡ tls_mode_optional)

tls_mode-IsMode : (instance_ : Instance) → IsMode (tls_mode instance_)
unfolding tls_mode
tls_mode-IsMode instance_ = ground arith

module _ (ports : OperatorPorts) (d : DefaultPorts ports) where
  numbers-service_ports :
      (mode : String)
      → map (λ p. p.port) (service_ports ports mode) ≡ map (λ e. e.1) (client_ports mode)
  unfolding service_ports client_ports
  numbers-service_ports mode = elim (Bool-cases (str_eq mode tls_mode_required)) [
    | inl required ↦ elim (Bool-cases (is_empty mode)) [
      | inl off ↦ rw (required, off)
      | inr on ↦ rw (required, on) (simp (d.https, d.tls))
    ]
    | inr open_ ↦ elim (Bool-cases (is_empty mode)) [
      | inl off ↦ rw (open_, off) (simp (d.http, d.tcp))
      | inr on ↦ rw (open_, on) (simp (d.http, d.tcp, d.https, d.tls))
    ]
  ]

  abbrev requires : List ServicePort → Bool
  requires ps = any is_secure_port ps && not (any is_plaintext_port ps)

  requires-service_ports :
      (mode : String)
      → IsMode mode
      → requires (service_ports ports mode) ≡ str_eq mode tls_mode_required
  unfolding service_ports
  requires-service_ports mode (inl e) = rw e (simp (d.http, d.tcp))
  requires-service_ports mode (inr (inl e)) = rw e (simp (d.https, d.tls))
  requires-service_ports mode (inr (inr e)) = rw e (simp (d.http, d.tcp, d.https, d.tls))

  ports_of_template :
      (service : Option Service) (mode : String) (tmpl : ServiceTemplate)
      → expose_template ports service mode ≡ some tmpl
      → tmpl.ports ≡ service_ports ports mode
  unfolding expose_template
  ports_of_template none mode tmpl e = ground arith
  ports_of_template (some service) mode tmpl e = ground arith

  -- The template that is there has the root Service's name and the mode's ports; where none is, TLS
  -- is off.
  abbrev IsTemplate : String → Option ServiceTemplate → Type 0
  IsTemplate mode none = mode ≡ ""
  IsTemplate mode (some tmpl) =
      (tmpl.name ≡ service_template_name) × (tmpl.ports ≡ service_ports ports mode)

  expose_template-IsTemplate :
      (service : Option Service) (mode : String)
      → IsTemplate mode (expose_template ports service mode)
  unfolding expose_template
  expose_template-IsTemplate none mode =
      if-elim (IsTemplate mode) (is_empty mode) (is_empty_iff mode).0 (λ _. (refl, refl))
  expose_template-IsTemplate (some service) mode =
      if-elim (IsTemplate mode) (is_empty service.service_type)
        (λ _. if-elim (IsTemplate mode) (is_empty mode) (is_empty_iff mode).0 (λ _. (refl, refl)))
        (λ _. (refl, refl))

  applied_tls_required-add_template :
      (mode : String)
      → IsMode mode
      → (chi : Chi) (t : Templates) → chi.spec.templates ≡ some t
      → t.service_templates ≡ []
      → (o : Option ServiceTemplate) → IsTemplate mode o
      → applied_tls_required (record chi { spec = add_template ports chi.spec o })
        ≡ str_eq mode tls_mode_required
  unfolding applied_tls_required add_template
  applied_tls_required-add_template mode m chi t e n none i = rw (e, n, i)
  applied_tls_required-add_template mode m chi t e n (some tmpl) i =
      rw (e, n, i.0, i.1) (requires-service_ports mode m)

-- With the operator's documented default ports, a CHI whose spec has templates but had no Service
-- template before configureExpose reads back as requiring TLS exactly when the Instance's TLS mode
-- is "required", however its Service is exposed.
pub applied_tls_required-configure_expose :
    (ports : OperatorPorts) (instance_ : Instance) (chi : Chi) (service : Option Service)
    (t : Templates)
    → DefaultPorts ports
    → chi.spec.templates ≡ some t
    → t.service_templates ≡ []
    → applied_tls_required
        (record chi { spec = configure_expose ports chi.spec service (tls_mode instance_) })
      ≡ str_eq (tls_mode instance_) tls_mode_required
unfolding configure_expose
applied_tls_required-configure_expose ports instance_ chi service t d e n =
    let mode = tls_mode instance_ in
    applied_tls_required-add_template ports d mode (tls_mode-IsMode instance_) chi t e n
      (expose_template ports service mode) (expose_template-IsTemplate ports d service mode)

-- With the operator's documented default ports, and where the root Service has a template, its
-- ports are those that the connection details list.
ports-expose_template :
    (ports : OperatorPorts) (service : Option Service) (mode : String) (tmpl : ServiceTemplate)
    → DefaultPorts ports
    → expose_template ports service mode ≡ some tmpl
    → map (λ p. p.port) tmpl.ports ≡ map (λ e. e.1) (client_ports mode)
ports-expose_template ports service mode tmpl d e =
    rw (ports_of_template ports d service mode tmpl e) (numbers-service_ports ports d mode)
