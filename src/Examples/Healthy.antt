-- ===== src/Examples/Healthy.antt =====
-- A cluster in which no call fails and the Instance is rolled out with TLS.
use provider_altinity_clickh.Tls.{tls_mode, keeper_client_service_names, tls_enabled}
use provider_altinity_clickh.Keeper.{chk_ports, chi_keeper_port, next_keeper_wiring}
use provider_altinity_clickh.Keeper.Live.{clickhouse_part, keeper_part}
use provider_altinity_clickh.Keeper.Zookeeper.{keeper_zookeeper}
use provider_altinity_clickh.Expose.{configure_expose}
use provider_altinity_clickh.Sync.{sync}
use provider_altinity_clickh.Render.Chi.{chi_configuration, render_chi}
use provider_altinity_clickh.Prelude.{◌≡◌, refl, [], ◌∷◌, arith, eq_iff, some, none}
use provider_altinity_clickh.Prelude.Result.{ok}
use provider_altinity_clickh.Operator.{Chi, Chk}
use provider_altinity_clickh.Render.Switching.{live_chi, live_chk}
use provider_altinity_clickh.Render.Chk.{render_chk}
use provider_altinity_clickh.Examples.Data.{completed, shop}
use provider_altinity_clickh.Examples.Rendering.{secure_wiring, app}
use provider_altinity_clickh.Cluster.Secret.{get, lookup, value_or_empty}
use provider_altinity_clickh.Cluster.Objects.{Peer}
use provider_altinity_clickh.Cluster.Success.{IsHealthy}
use provider_altinity_clickh.Credentials.Derived.{IsComplete}
use provider_altinity_clickh.NetPol.{operator_peer, resolve_namespace}
use provider_altinity_clickh.Image.{resolve_image}
use provider_altinity_clickh.Prelude.Text.{trim_space, equal_fold}
use provider_altinity_clickh.Render.{resolve_engine_settings}
use provider_altinity_clickh.Rollout.{rolled_out}
use provider_altinity_clickh.Status.{wait_for_chi, wait_for_chk}
use provider_altinity_clickh.Tls.Resources.{server_certificate_issued}
use provider_altinity_clickh.Sync.Progress.Rendering.{Renders}
use provider_altinity_clickh.Sync.Progress.Ending.{InService, KeeperInService}
use provider_altinity_clickh.Sync.Progress.Healthy.{sync_done}
use provider_altinity_clickh.Examples.Secrets.{crypto, served}
use provider_altinity_clickh.Examples.Environment.{runtime, prints, surroundings}
use provider_altinity_clickh.Examples.Finished.{quiet_cluster}

quiet_cluster-IsHealthy : IsHealthy quiet_cluster
quiet_cluster-IsHealthy = record {
  chis = λ h name e same. ground arith;
  chks = λ h name e same. ground arith;
  secrets = λ h name e same. ground arith;
  services = λ h name e same. ground arith;
  others = λ h kind name e same. ground arith;
  pods = λ h key value. ([], refl);
  applies = λ h object. refl;
  deletes = λ h kind name. refl;
}

served-IsComplete : IsComplete crypto served
unfolding get lookup value_or_empty
served-IsComplete = record {
  username = ground (arith, eq_iff "app" "");
  password = ground (arith, eq_iff "a long password" "");
  default_password = ground (arith, eq_iff "generated" "");
  interserver_password = ground (arith, eq_iff "generated" "");
  cluster_secret = ground (arith, eq_iff "generated" "");
  digest = refl;
  default_digest = refl;
  applied = refl;
}

shop-Renders : Renders runtime prints shop
unfolding resolve_image trim_space resolve_engine_settings
shop-Renders = record {
  engine_image = ("clickhouse:25.8", refl);
  keeper_image = ("clickhouse:25.8", refl);
  settings = (_, refl);
  spec_hash = λ obj. ("0123456789abcdef", refl);
  inputs_hash = λ inputs. ("in", refl);
}

abbrev pub op : Peer
op = Peer.operator "kube-system" (("app.kubernetes.io/name", "operator") ∷ [])

pub is_op : operator_peer surroundings.environment ≡ ok op
unfolding operator_peer resolve_namespace
is_op = refl

abbrev pub live : Chi × Chk
live = (
  live_chi (some "openeverest-1") (some completed)
      (render_chi runtime shop 2 secure_wiring "clickhouse:25.8" [] app),
  live_chk (some "openeverest-1") (some completed)
      (render_chk runtime shop secure_wiring "clickhouse:25.8" (10737418240, none)),
)

shop-InService : InService shop quiet_cluster live.0
unfolding rolled_out wait_for_chi
shop-InService = record { stored = λ h. (shop, refl); is_chi = λ h. refl; chi_serves = refl }

shop-KeeperInService : KeeperInService shop quiet_cluster live.0
unfolding equal_fold tls_enabled rolled_out wait_for_chk next_keeper_wiring clickhouse_part
    chi_keeper_port render_chi configure_expose tls_mode chi_configuration keeper_zookeeper
    keeper_client_service_names keeper_part chk_ports render_chk
shop-KeeperInService = record {
  chk = live.1;
  is_chk = λ h. refl;
  chk_serves = refl;
  no_switch = refl;
}

sync_done_example : (sync surroundings shop quiet_cluster []).0 ≡ ok tt
unfolding tls_enabled server_certificate_issued get
sync_done_example =
    sync_done surroundings shop quiet_cluster live.0 op served [] quiet_cluster-IsHealthy
      shop-InService (λ e. shop-KeeperInService) is_op shop-Renders (λ g. refl) served-IsComplete
      (λ e g. refl)
