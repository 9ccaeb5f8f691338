-- ===== src/Examples/Exposure.antt =====
-- The ports, the policies and the resources of an Instance.
use provider_altinity_clickh.Prelude.{ℕ, refl, String}
use provider_altinity_clickh.Common.{http_port, tcp_port, https_port, tcp_secure_port}
use provider_altinity_clickh.Operator.{ServicePort}
use provider_altinity_clickh.Expose.{OperatorPorts}
use provider_altinity_clickh.Expose.Modes.{DefaultPorts}

abbrev pub port_of : String → ℕ → ServicePort
port_of name port = record { name = name; port = port; target_port = name }

abbrev pub default_ports : OperatorPorts
default_ports = record {
  http = port_of "http" http_port;
  tcp = port_of "tcp" tcp_port;
  https = port_of "https" https_port;
  tls = port_of "tls" tcp_secure_port;
}

pub default_ports-DefaultPorts : DefaultPorts default_ports
default_ports-DefaultPorts = record { http = refl; tcp = refl; https = refl; tls = refl }
