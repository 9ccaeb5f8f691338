-- ===== src/Render.antt =====
-- What the CHI and the CHK are rendered from: the engine's settings, users and credentials of
-- internal/provider/provider.go and users.go, and the TLS files of internal/provider/tls.go.
pub mod Chi
pub mod Chk
pub mod Wiring
pub mod Errors
pub mod Switching
pub mod Certificate
use provider_altinity_clickh.Prelude.{
  ℕ, String, Bool, true, false, not, Option, none, some, List, [], ◌∷◌, ◌++◌, if◌then◌else◌,
}
use provider_altinity_clickh.Prelude.Int.{pos}
use provider_altinity_clickh.Prelude.Decimal.{itoa}
use provider_altinity_clickh.Prelude.Text.{is_empty, trim_space, ◌<>◌}
use provider_altinity_clickh.Prelude.Result.{wrapped, Result, ok, err}
use provider_altinity_clickh.Common.{
  app_user_name, annotation_credentials_revision, interserver_user, metrics_path, metrics_port,
  https_port, tcp_secure_port, interserver_https_port, credentials_key_username,
  credentials_key_password_sha256, credentials_key_default_password_sha256,
  credentials_key_interserver_password, credentials_key_cluster_secret, credentials_key_revision,
}
use provider_altinity_clickh.Operator.{
  Setting, scalar, vector, source, SecretRef, Settings, unmarshal, set, set_if_not_exists,
  Configuration, OperatorCluster,
}
use provider_altinity_clickh.Instance.{Instance, ComponentSpec, parameters_of}
use provider_altinity_clickh.Cluster.{Exec, pure, lift, ◌>>=◌, get_secret, optional_result}
use provider_altinity_clickh.Cluster.Secret.{Data, get}
use provider_altinity_clickh.Runtime.{Runtime}
use provider_altinity_clickh.Tls.{server_secret_name}

-- secretSetting and secretFileSetting
abbrev pub secret_setting : String → String → Setting
secret_setting name key = source (record { secret_name = name; key = key })

abbrev pub prometheus_settings : Settings
prometheus_settings =
    set_if_not_exists "prometheus/endpoint" (scalar metrics_path)
    ∷ set_if_not_exists "prometheus/port" (scalar (itoa (pos metrics_port)))
    ∷ set_if_not_exists "prometheus/metrics" (scalar "true")
    ∷ set_if_not_exists "prometheus/events" (scalar "true")
    ∷ set_if_not_exists "prometheus/asynchronous_metrics" (scalar "true")
    ∷ set_if_not_exists "prometheus/status_info" (scalar "true")
    ∷ []

unfoldable pub user_settings_from : String → Result (List String) → Result Settings
user_settings_from cfg (ok names) = ok (unmarshal cfg ∷ prometheus_settings)
user_settings_from cfg (err e) = err (wrapped "parse engine configuration" e)

unfoldable pub resolve_engine_settings : Runtime → ComponentSpec → Result Settings
unfolding user_settings_from
resolve_engine_settings rt engine =
    let cfg = trim_space (parameters_of engine).configuration in
    if is_empty cfg then ok prometheus_settings else user_settings_from cfg (rt.settings_names cfg)

-- The administrative username, and the annotations that roll the pods on a change.
unfoldable pub chi_credentials : Option Data → String × Data
chi_credentials none = (app_user_name, [])
chi_credentials (some data_) =
    let username = get credentials_key_username data_ in
    (
      if is_empty username then app_user_name else username,
      (annotation_credentials_revision, get credentials_key_revision data_) ∷ [],
    )

unfoldable pub credentials_for_chi : String → Exec (String × Data)
unfolding chi_credentials
credentials_for_chi secret_name = do
  answer ← get_secret secret_name
  found ← lift (optional_result secret_name answer)
  pure (chi_credentials found)

unfoldable pub build_user_settings : String → String → Settings
build_user_settings secret_name username =
    set (username <> "/password_sha256_hex")
      (secret_setting secret_name credentials_key_password_sha256)
    ∷ set (username <> "/networks/ip") (vector ("::/0" ∷ []))
    ∷ set (username <> "/profile") (scalar "default")
    ∷ set (username <> "/quota") (scalar "default")
    ∷ set (username <> "/access_management") (scalar "1")
    ∷ set (username <> "/named_collection_control") (scalar "1")
    ∷ set "default/password_sha256_hex"
        (secret_setting secret_name credentials_key_default_password_sha256)
    ∷ []

-- applyInterserverAuth: the settings and the cluster after it.
unfoldable pub apply_interserver_auth :
    Settings → OperatorCluster → String → Settings × OperatorCluster
apply_interserver_auth settings cluster secret_name = (
  settings
      ++ (set "interserver_http_credentials/user" (scalar interserver_user)
          ∷ set "interserver_http_credentials/password"
              (secret_setting secret_name credentials_key_interserver_password)
          ∷ []),
  record cluster {
    secret = some (record { secret_name = secret_name; key = credentials_key_cluster_secret });
  },
)

abbrev lines : List String → String
lines [] = ""
lines (line ∷ rest) = line <> "\n" <> lines rest

unfoldable pub openssl_xml : String → String
openssl_xml secret_name =
    let base : String = "/etc/clickhouse-server/secrets.d" in
    let certificate : String = base <> "/server.crt/" <> secret_name <> "/tls.crt" in
    let private_key : String = base <> "/server.key/" <> secret_name <> "/tls.key" in
    let authority : String = base <> "/ca.crt/" <> secret_name <> "/ca.crt" in
    lines (
      "<clickhouse>"
      ∷ "    <openSSL>"
      ∷ "        <server>"
      ∷ ("            <certificateFile>" <> certificate <> "</certificateFile>")
      ∷ ("            <privateKeyFile>" <> private_key <> "</privateKeyFile>")
      ∷ ("            <caConfig>" <> authority <> "</caConfig>")
      ∷ "            <verificationMode>none</verificationMode>"
      ∷ "            <cacheSessions>true</cacheSessions>"
      ∷ "            <disableProtocols>sslv2,sslv3</disableProtocols>"
      ∷ "            <preferServerCiphers>true</preferServerCiphers>"
      ∷ "        </server>"
      ∷ "        <client>"
      ∷ ("            <caConfig>" <> authority <> "</caConfig>")
      ∷ "            <loadDefaultCAFile>true</loadDefaultCAFile>"
      ∷ "            <verificationMode>relaxed</verificationMode>"
      ∷ "            <cacheSessions>true</cacheSessions>"
      ∷ "            <disableProtocols>sslv2,sslv3</disableProtocols>"
      ∷ "            <preferServerCiphers>true</preferServerCiphers>"
      ∷ "            <invalidCertificateHandler>"
      ∷ "                <name>RejectCertificateHandler</name>"
      ∷ "            </invalidCertificateHandler>"
      ∷ "        </client>"
      ∷ "    </openSSL>"
      ∷ "</clickhouse>"
      ∷ [])

unfoldable pub build_tls_files : String → Settings
unfolding openssl_xml
build_tls_files secret_name =
    set "openssl.xml" (scalar (openssl_xml secret_name))
    ∷ set "server.crt" (secret_setting secret_name "tls.crt")
    ∷ set "server.key" (secret_setting secret_name "tls.key")
    ∷ set "ca.crt" (secret_setting secret_name "ca.crt")
    ∷ []

-- applyTLSToCHISpec, on the settings and the cluster that the configuration shares.
unfoldable pub apply_tls_to_chi_spec :
    Configuration → Settings → OperatorCluster → String → Configuration
unfolding build_tls_files
apply_tls_to_chi_spec configuration settings cluster instance_name = record configuration {
  clusters = record cluster { secure = some true } ∷ [];
  settings = some (
      settings
      ++ (set "https_port" (scalar (itoa (pos https_port)))
          ∷ set "tcp_port_secure" (scalar (itoa (pos tcp_secure_port)))
          ∷ set "interserver_https_port" (scalar (itoa (pos interserver_https_port)))
          ∷ set "interserver_http_port" (scalar "_removed_")
          ∷ []));
  files = some (build_tls_files (server_secret_name instance_name));
}
