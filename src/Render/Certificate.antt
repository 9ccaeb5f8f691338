-- ===== src/Render/Certificate.antt =====
-- Which rendered CHI and CHK serve the server certificate, as cleanupTLS of internal/provider/tls.go
-- asks.
use provider_altinity_clickh.Prelude.{
  ℕ, ◌≡◌, refl, ap, ◌∙◌, String, Bool, true, false, not, ◌||◌, Option, none, some, [], ◌∷◌, ◌++◌,
  arith,
}
use provider_altinity_clickh.Prelude.Int.{pos, ◌==ℤ◌}
use provider_altinity_clickh.Prelude.Text.{is_empty}
use provider_altinity_clickh.Common.{keeper_secure_port}
use provider_altinity_clickh.Operator.{
  Setting, scalar, set, Settings, OperatorCluster, Configuration,
}
use provider_altinity_clickh.Instance.{Instance, engine_of}
use provider_altinity_clickh.Cluster.Secret.{Data}
use provider_altinity_clickh.Runtime.{Runtime}
use provider_altinity_clickh.Tls.{server_secret_name, tls_mode}
use provider_altinity_clickh.Keeper.{KeeperWiring}
use provider_altinity_clickh.Render.{
  apply_tls_to_chi_spec, build_tls_files, openssl_xml, secret_setting,
}
use provider_altinity_clickh.Tls.Resources.{serves_certificate}
use provider_altinity_clickh.Render.Chi.{
  render_chi, chi_configuration, tls_configuration, with_keeper, plain_configuration,
}
use provider_altinity_clickh.Render.Chk.{render_chk, chk_configuration}
use provider_altinity_clickh.Render.Wiring.{configuration-configure_expose, spec_before}

-- Settings.Has finds a name that Settings.Set was called with.
pub record FindsSet (has_certificate_file : Settings → Bool) : Type 0 where
  pub finds :
      (before after : Settings) (value : Setting)
      → has_certificate_file (before ++ (set "server.crt" value ∷ after)) ≡ true

finds-build_tls_files :
    (has : Settings → Bool) (f : FindsSet has) (secret_name : String)
    → has (build_tls_files secret_name) ≡ true
unfolding build_tls_files
finds-build_tls_files has f secret_name =
    f.finds (set "openssl.xml" (scalar (openssl_xml secret_name)) ∷ [])
      (set "server.key" (secret_setting secret_name "tls.key")
        ∷ set "ca.crt" (secret_setting secret_name "ca.crt")
        ∷ [])
      (secret_setting secret_name "tls.crt")

-- That the files of a configuration have the certificate.
abbrev has_files : (Settings → Bool) → Option Settings → Bool
has_files has none = false
has_files has (some files) = has files

files-tls_configuration :
    (has : Settings → Bool) (instance_ : Instance) (wiring : KeeperWiring) (settings : Settings)
    (cluster : OperatorCluster) (configuration : Configuration)
    → FindsSet has
    → configuration.files ≡ none
    → has_files has (tls_configuration instance_ wiring settings cluster configuration).files
      ≡ (not (is_empty (tls_mode instance_)) || wiring.port ==ℤ pos keeper_secure_port)
unfolding tls_configuration apply_tls_to_chi_spec
files-tls_configuration has instance_ wiring settings cluster configuration f e =
    ground (arith, finds-build_tls_files has f (server_secret_name instance_.name))

files-with_keeper :
    (instance_ : Instance) (n : ℕ) (wiring : KeeperWiring) (configuration : Configuration)
    → (with_keeper instance_ n wiring configuration).files ≡ configuration.files
unfolding with_keeper
files-with_keeper instance_ n wiring configuration = ground arith

abbrev certificate_of : (Settings → Bool) → Option Configuration → Bool
certificate_of has configuration = serves_certificate has (record {
  task_id = none;
  configuration = configuration;
  templates = none;
  default_service_template = none;
})

-- Where Settings.Has finds what Settings.Set has set, the provider takes a rendered CHI for one that
-- serves the certificate exactly when TLS is on or ClickHouse is wired to Keeper's secure port, and a
-- rendered CHK exactly when Keeper serves its secure port.
pub serves_certificate-rendered :
    (rt : Runtime) (instance_ : Instance) (n : ℕ) (wiring : KeeperWiring)
    (image keeper_image : String) (settings : Settings) (credentials : String × Data)
    (storage : ℕ × Option String)
    → FindsSet rt.has_certificate_file
    → (serves_certificate rt.has_certificate_file
          (render_chi rt instance_ n wiring image settings credentials).spec
        ≡ (not (is_empty (tls_mode instance_)) || wiring.port ==ℤ pos keeper_secure_port))
      × (serves_certificate rt.has_certificate_file
            (render_chk rt instance_ wiring keeper_image storage).spec
          ≡ wiring.secure)
unfolding render_chi render_chk chk_configuration serves_certificate chi_configuration
    plain_configuration
serves_certificate-rendered rt instance_ n wiring image keeper_image settings
      (username, annotations) storage f =
    (
      ap (certificate_of rt.has_certificate_file) (
            configuration-configure_expose rt.operator_ports
              (spec_before rt instance_ n wiring image settings (username, annotations))
              (engine_of instance_).service (tls_mode instance_))
          ∙ ap (has_files rt.has_certificate_file) (files-with_keeper instance_ n wiring _)
          ∙ files-tls_configuration rt.has_certificate_file instance_ wiring _ _ _ f refl,
      ground (
        arith,
        finds-build_tls_files rt.has_certificate_file f (server_secret_name instance_.name),
      ),
    )
