-- ===== src/Render/Wiring.antt =====
-- The rendered CHI and CHK, read back: the Keeper ports, the certificate and the required TLS.
use provider_altinity_clickh.Prelude.{
  ℕ, ◌≡◌, refl, ap, ◌∙◌, inl, inr, String, Option, none, some, if◌then◌else◌, ltb, arith,
  Bool-cases,
}
use provider_altinity_clickh.Prelude.Int.{ℤ, pos, negsuc, minus_one}
use provider_altinity_clickh.Prelude.Text.{str_eq}
use provider_altinity_clickh.Common.{tls_mode_required}
use provider_altinity_clickh.Operator.{Settings, OperatorCluster, Configuration, InstallationSpec}
use provider_altinity_clickh.Instance.{Instance, Service, engine_of}
use provider_altinity_clickh.Cluster.Secret.{Data}
use provider_altinity_clickh.Runtime.{Runtime}
use provider_altinity_clickh.Tls.{
  tls_mode, keeper_client_service_names, keeper_host_names, numbered, with_client_suffix,
}
use provider_altinity_clickh.Expose.{
  OperatorPorts, configure_expose, add_template, applied_tls_required,
}
use provider_altinity_clickh.Expose.Modes.{DefaultPorts, applied_tls_required-configure_expose}
use provider_altinity_clickh.Keeper.{KeeperWiring, chk_ports, chi_keeper_port}
use provider_altinity_clickh.Keeper.Zookeeper.{keeper_zookeeper}
use provider_altinity_clickh.Render.{apply_tls_to_chi_spec}
use provider_altinity_clickh.Render.Chi.{
  render_chi, chi_configuration, chi_templates, tls_configuration, with_keeper, plain_configuration,
}
use provider_altinity_clickh.Render.Chk.{render_chk, chk_configuration, keeper_cluster}

-- The ports that a rendered CHK serves are those of the wiring.
pub chk_ports-render_chk :
    (rt : Runtime) (instance_ : Instance) (wiring : KeeperWiring) (image : String)
    (storage : ℕ × Option String)
    → chk_ports (render_chk rt instance_ wiring image storage) ≡ (wiring.secure, wiring.plaintext)
unfolding chk_ports render_chk chk_configuration keeper_cluster
chk_ports-render_chk rt instance_ wiring image storage = ground arith

pub configuration-configure_expose :
    (ports : OperatorPorts) (spec : InstallationSpec) (service : Option Service) (mode : String)
    → (configure_expose ports spec service mode).configuration ≡ spec.configuration
unfolding configure_expose add_template
configuration-configure_expose ports spec service mode = ground arith

-- TLS leaves the Keeper endpoints to `with_keeper`.
pub zookeeper-tls_configuration :
    (instance_ : Instance) (wiring : KeeperWiring) (settings : Settings) (cluster : OperatorCluster)
    (configuration : Configuration)
    → (tls_configuration instance_ wiring settings cluster configuration).zookeeper
      ≡ configuration.zookeeper
unfolding tls_configuration apply_tls_to_chi_spec
zookeeper-tls_configuration instance_ wiring settings cluster configuration = ground arith

abbrev port_of : Option Configuration → ℤ
port_of configuration = chi_keeper_port (record {
  name = "";
  spec = record {
    task_id = none;
    configuration = configuration;
    templates = none;
    default_service_template = none;
  };
  status = none;
})

port_of-zookeeper :
    (instance_ : Instance) (port : ℤ) (configuration : Configuration)
    → port_of (some (record configuration { zookeeper = some (keeper_zookeeper instance_ port) }))
      ≡ port
unfolding chi_keeper_port keeper_zookeeper keeper_client_service_names keeper_host_names numbered
    with_client_suffix
port_of-zookeeper instance_ (pos port) configuration = ground arith
port_of-zookeeper instance_ (negsuc port) configuration = ground arith

port_of-none :
    (configuration : Configuration)
    → configuration.zookeeper ≡ none
    → port_of (some configuration) ≡ minus_one
unfolding chi_keeper_port
port_of-none configuration e = ground arith

port_of-with_keeper :
    (instance_ : Instance) (n : ℕ) (wiring : KeeperWiring) (configuration : Configuration)
    → configuration.zookeeper ≡ none
    → port_of (some (with_keeper instance_ n wiring configuration))
      ≡ (if ltb 1 n then wiring.port else minus_one)
unfolding with_keeper
port_of-with_keeper instance_ n wiring configuration e = elim (Bool-cases (ltb 1 n)) [
  | inl many ↦ rw many (port_of-zookeeper instance_ wiring.port configuration)
  | inr one ↦ rw one (port_of-none configuration e)
]

port_of-chi_configuration :
    (instance_ : Instance) (n : ℕ) (wiring : KeeperWiring) (settings : Settings) (username : String)
    → port_of (some (chi_configuration instance_ n wiring settings username))
      ≡ (if ltb 1 n then wiring.port else minus_one)
unfolding chi_configuration plain_configuration
port_of-chi_configuration instance_ n wiring settings username =
    port_of-with_keeper instance_ n wiring _ (zookeeper-tls_configuration instance_ wiring _ _ _)

abbrev pub spec_before :
    Runtime → Instance → ℕ → KeeperWiring → String → Settings → String × Data → InstallationSpec
spec_before rt instance_ n wiring image settings (username, annotations) = record {
  task_id = none;
  configuration = some (chi_configuration instance_ n wiring settings username);
  templates = some (chi_templates rt instance_ image annotations);
  default_service_template = none;
}

-- The Keeper port that is read back from a rendered CHI is that of the wiring, for more than one
-- replica, and for at most one it has no Keeper.
pub chi_keeper_port-render_chi :
    (rt : Runtime) (instance_ : Instance) (n : ℕ) (wiring : KeeperWiring) (image : String)
    (settings : Settings) (credentials : String × Data)
    → chi_keeper_port (render_chi rt instance_ n wiring image settings credentials)
      ≡ (if ltb 1 n then wiring.port else minus_one)
unfolding render_chi chi_keeper_port
chi_keeper_port-render_chi rt instance_ n wiring image settings (username, annotations) =
    ap port_of (
      configuration-configure_expose rt.operator_ports
        (spec_before rt instance_ n wiring image settings (username, annotations))
        (engine_of instance_).service (tls_mode instance_))
    ∙ port_of-chi_configuration instance_ n wiring settings username

-- With the operator's documented default ports, a rendered CHI reads back as requiring TLS exactly
-- when the Instance's TLS mode is "required".
pub applied_tls_required-render_chi :
    (rt : Runtime) (instance_ : Instance) (n : ℕ) (wiring : KeeperWiring) (image : String)
    (settings : Settings) (credentials : String × Data)
    → DefaultPorts rt.operator_ports
    → applied_tls_required (render_chi rt instance_ n wiring image settings credentials)
      ≡ str_eq (tls_mode instance_) tls_mode_required
unfolding render_chi chi_templates
applied_tls_required-render_chi rt instance_ n wiring image settings (username, annotations) d =
    applied_tls_required-configure_expose rt.operator_ports instance_
      (record {
        name = instance_.name;
        spec = spec_before rt instance_ n wiring image settings (username, annotations);
        status = none;
      })
      (engine_of instance_).service (chi_templates rt instance_ image annotations) d refl refl
