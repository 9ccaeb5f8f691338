-- ===== src/Examples/Finished.antt =====
-- A Sync that is done, and the status that is reported after it.
use provider_altinity_clickh.Tls.Resources.{
  ensure_tls, server_certificate_issued, cleanup_tls, server_secret_mounted, delete_tls_resources,
}
use provider_altinity_clickh.Expose.{configure_expose, service_ports, applied_tls_required}
use provider_altinity_clickh.NetPol.{operator_peer, resolve_namespace, reconcile_plaintext_policy}
use provider_altinity_clickh.Keeper.Zookeeper.{keeper_zookeeper}
use provider_altinity_clickh.Render.Chi.{chi_configuration, render_chi, build_chi_wired}
use provider_altinity_clickh.Tls.{tls_mode, keeper_client_service_names, tls_enabled}
use provider_altinity_clickh.Render.Switching.{live_chi, live_chk}
use provider_altinity_clickh.Render.Chk.{
  render_chk, keeper_storage_class, undeclared_class, live_class, resolve_keeper_storage,
  build_chk_wired,
}
use provider_altinity_clickh.Prelude.{some, ◌≡◌, refl, [], none}
use provider_altinity_clickh.Cluster.{Api, found, History}
use provider_altinity_clickh.Examples.Data.{completed, shop, cluster}
use provider_altinity_clickh.Examples.Environment.{runtime, surroundings}
use provider_altinity_clickh.Examples.Rendering.{secure_wiring, app}
use provider_altinity_clickh.Status.{
  chi_installation, installation_status, reduced_chi, reduced_chk, chk_installation, Status, ready,
  in_progress, status_of, wait_for_chi, wait_for_chk,
}
use provider_altinity_clickh.Connection.{build_connection_details}
use provider_altinity_clickh.Prelude.Result.{ok, err, Result}
use provider_altinity_clickh.Sync.Done.{IsQuiet, sync-Ready}
use provider_altinity_clickh.Keeper.{chk_ports, next_keeper_wiring, chi_keeper_port}
use provider_altinity_clickh.Sync.{
  apply_and_wait_for_chi, apply_and_wait_for_chk, sync_topology, sync_replicated, sync_resources,
  sync,
}
use provider_altinity_clickh.Rollout.{
  rolled_out, gate_apply, apply_allowed, is_allowed, is_record_key, new_rollout_gate,
}
use provider_altinity_clickh.Cluster.Secret.{put, get}
use provider_altinity_clickh.Render.{credentials_for_chi, resolve_engine_settings}
use provider_altinity_clickh.Prelude.Text.{trim_space, equal_fold}
use provider_altinity_clickh.Image.{resolve_image}
use provider_altinity_clickh.Credentials.{
  derive, fill_key, bump_if, put_if, complete, ensure_credentials, store, same_data,
}
use provider_altinity_clickh.Monitoring.{wants_pod_monitor, reconcile_pod_monitor}
use provider_altinity_clickh.Keeper.Live.{plan_keeper_wiring}
use provider_altinity_clickh.Examples.Secrets.{served}

-- Keeper and ClickHouse as they were rendered for TLS, and rolled out.
abbrev pub quiet_cluster : Api
quiet_cluster = record (cluster served) {
  read_chi = λ h name. found (
      live_chi (some "openeverest-1") (some completed)
        (render_chi runtime shop 2 secure_wiring "clickhouse:25.8" [] app));
  read_chk = λ h name. found (
      live_chk (some "openeverest-1") (some completed)
        (render_chk runtime shop secure_wiring "clickhouse:25.8" (10737418240, none)));
}

done :
    sync surroundings shop quiet_cluster [] ≡ (ok tt, (sync surroundings shop quiet_cluster []).1)
unfolding sync get bump_if complete derive ensure_credentials fill_key put_if same_data store
    plan_keeper_wiring reconcile_pod_monitor wants_pod_monitor equal_fold sync_replicated
    sync_resources sync_topology tls_enabled resolve_image trim_space build_chi_wired
    build_chk_wired keeper_storage_class live_class resolve_keeper_storage undeclared_class
    credentials_for_chi resolve_engine_settings apply_allowed gate_apply is_allowed is_record_key
    new_rollout_gate wait_for_chk apply_and_wait_for_chk put applied_tls_required chi_keeper_port
    chk_ports next_keeper_wiring reconcile_plaintext_policy rolled_out wait_for_chi
    apply_and_wait_for_chi cleanup_tls delete_tls_resources server_secret_mounted
    build_connection_details chi_installation chk_installation installation_status configure_expose
    service_ports keeper_zookeeper operator_peer resolve_namespace chi_configuration ensure_tls
    server_certificate_issued keeper_client_service_names tls_mode reduced_chi reduced_chk
    render_chi render_chk status_of
done = refl

served-IsQuiet : IsQuiet shop quiet_cluster
served-IsQuiet = record {
  same_chi = λ g h. refl;
  same_chk = λ g h. refl;
  same_certificate = λ g h. refl;
}

abbrev reported : Result Status → Status
reported (ok st) = st
reported (err e) = in_progress none ""

-- What Status reports after the Sync.
abbrev status : Status × History
status = let r = status_of surroundings.urls shop quiet_cluster [] in (reported r.0, r.1)

is_reported : status_of surroundings.urls shop quiet_cluster [] ≡ (ok status.0, status.1)
unfolding status_of equal_fold build_connection_details chi_installation chk_installation
    installation_status reduced_chi reduced_chk rolled_out tls_enabled server_certificate_issued get
is_reported = refl

sync-Ready_example : status.0.phase ≡ ready
sync-Ready_example =
    sync-Ready surroundings shop quiet_cluster [] (sync surroundings shop quiet_cluster []).1 []
      status.1 status.0 served-IsQuiet done is_reported
