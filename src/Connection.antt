-- ===== src/Connection.antt =====
-- internal/provider/connection.go: how clients reach an Instance. The URL syntax of net/url and net
-- is the parameter `Urls`; the keys of the additional properties are distinct, so the order in which
-- Go ranges over the ports does not matter.
use provider_altinity_clickh.Prelude.{
  ℕ, String, not, Option, none, some, List, [], ◌∷◌, if◌then◌else◌, ◌==◌,
}
use provider_altinity_clickh.Prelude.Int.{pos}
use provider_altinity_clickh.Prelude.Decimal.{itoa}
use provider_altinity_clickh.Prelude.Text.{str_eq, is_empty, ◌<>◌}
use provider_altinity_clickh.Common.{
  app_user_name, credentials_key_username, credentials_key_password, connection_key_internal_host,
  connection_key_ca_cert, connection_key_node_port_suffix, http_port, https_port, provider_name,
}
use provider_altinity_clickh.Operator.{Chi, OperatorStatus}
use provider_altinity_clickh.Instance.{Instance}
use provider_altinity_clickh.Cluster.{
  Exec, Read, found, missing, failed, pure, ◌>>=◌, Ingress, NodePort, LiveService, get_secret,
  get_service,
}
use provider_altinity_clickh.Cluster.Secret.{Data, get, put}
use provider_altinity_clickh.Expose.{client_ports}
use provider_altinity_clickh.Rollout.{credentials_secret_name}
use provider_altinity_clickh.Tls
use provider_altinity_clickh.Tls.{tls_mode, client_service_name, server_secret_name}

-- `uri scheme username password host path` and `join_host_port host port`
pub record Urls : Type 0 where
  pub uri : String → String → String → String → String → String
  pub join_host_port : String → String → String

pub record ConnectionDetails : Type 0 where
  pub kind : String
  pub provider : String
  pub host : String
  pub port : String
  pub username : String
  pub password : String
  pub uri : String
  pub additional : Data

unfoldable pub first_nonempty : List String → String
first_nonempty [] = ""
first_nonempty (s ∷ rest) = if is_empty s then first_nonempty rest else s

-- loadBalancerAddress: the first hostname or, failing that, the first IP.
hostnames : List Ingress → List String
hostnames [] = []
hostnames (entry ∷ rest) = entry.hostname ∷ hostnames rest

ips : List Ingress → List String
ips [] = []
ips (entry ∷ rest) = entry.ip ∷ ips rest

unfoldable pub load_balancer_address : LiveService → String
unfolding first_nonempty hostnames ips
load_balancer_address service =
    let hostname = first_nonempty (hostnames service.ingress) in
    if not (str_eq service.service_type "LoadBalancer")
    then ""
    else if is_empty hostname
    then first_nonempty (ips service.ingress)
    else hostname

unfoldable pub node_port_for : List NodePort → ℕ → ℕ
node_port_for [] port = 0
node_port_for (p ∷ ports) port = if p.port == port then p.node_port else node_port_for ports port

-- The endpoint that the operator reports; `none` is a CHI without status.
endpoint_of : Option OperatorStatus → String
endpoint_of none = ""
endpoint_of (some s) = s.endpoint

unfoldable pub internal_host : Instance → Chi → String
unfolding endpoint_of
internal_host instance_ chi =
    let endpoint = endpoint_of chi.status in
    if is_empty endpoint
    then client_service_name instance_.name <> "." <> instance_.namespace <> ".svc"
    else endpoint

unfoldable pub put_ports : List (String × ℕ) → Data → Data
put_ports [] m = m
put_ports ((key, port) ∷ ports) m = put_ports ports (put key (itoa (pos port)) m)

unfoldable pub put_node_ports : LiveService → List (String × ℕ) → Data → Data
unfolding node_port_for
put_node_ports service [] m = m
put_node_ports service ((key, port) ∷ ports) m =
    let node_port = node_port_for service.ports port in
    put_node_ports service ports (
      if node_port == 0
      then m
      else put (key <> connection_key_node_port_suffix) (itoa (pos node_port)) m)

-- The host and the properties once the client Service was read; an error is no Service.
unfoldable pub with_service : Read LiveService → List (String × ℕ) → String → Data → String × Data
unfolding load_balancer_address put_node_ports
with_service missing ports host additional = (host, additional)
with_service (failed e) ports host additional = (host, additional)
with_service (found service) ports host additional =
    let address = load_balancer_address service in
    (
      if is_empty address then host else address,
      if str_eq service.service_type "NodePort"
          then put_node_ports service ports additional
          else additional,
    )

-- The key under which cert-manager stores the CA (cmmeta.TLSCAKey).
abbrev ca_cert_key : String
ca_cert_key = "ca.crt"

-- readCACert and readCredentials
unfoldable pub secret_data : Read Data → Data
secret_data (found m) = m
secret_data missing = []
secret_data (failed e) = []

unfoldable pub read_ca_cert : Instance → Exec String
unfolding secret_data
read_ca_cert instance_ = do
  answer ← get_secret (server_secret_name instance_.name)
  pure (get ca_cert_key (secret_data answer))

unfoldable pub credentials_of : Data → String × String
credentials_of m =
    let username = get credentials_key_username m in
    (if is_empty username then app_user_name else username, get credentials_key_password m)

unfoldable pub read_credentials : Instance → Exec (String × String)
unfolding secret_data credentials_of
read_credentials instance_ = do
  answer ← get_secret (credentials_secret_name instance_.name)
  pure (credentials_of (secret_data answer))

unfoldable pub add_ca_cert : Instance → Data → Exec Data
unfolding read_ca_cert
add_ca_cert instance_ additional = if not (Tls.tls_enabled instance_) then pure additional else do
  certificate ← read_ca_cert instance_
  pure (
      if is_empty certificate
      then additional
      else put connection_key_ca_cert certificate additional)

unfoldable pub connection_details :
    Urls → Instance → String → Data → String × String → ConnectionDetails
connection_details urls instance_ host additional (username, password) =
    let scheme = if Tls.tls_enabled instance_ then "https" else "http" in
    let port = itoa (pos (if Tls.tls_enabled instance_ then https_port else http_port)) in
    record {
      kind = "clickhouse";
      provider = provider_name;
      host = host;
      port = port;
      username = username;
      password = password;
      uri = urls.uri scheme username password (urls.join_host_port host port) "/";
      additional = additional;
    }

unfoldable pub build_connection_details : Urls → Instance → Chi → Exec ConnectionDetails
unfolding internal_host put_ports with_service add_ca_cert read_credentials connection_details
build_connection_details urls instance_ chi =
    let inside = internal_host instance_ chi in
    let ports = client_ports (tls_mode instance_) in
    do
      answer ← get_service (client_service_name instance_.name)
      let reach =
          with_service answer ports inside
            (put_ports ports ((connection_key_internal_host, inside) ∷ []))
      additional ← add_ca_cert instance_ reach.1
      credentials ← read_credentials instance_
      pure (connection_details urls instance_ reach.0 additional credentials)
