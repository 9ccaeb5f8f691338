-- ===== src/Examples/Rendering.antt =====
-- The CHI and the CHK that are rendered for an Instance with TLS.
use provider_altinity_clickh.Prelude.{
  ◌∷◌, ◌≡◌, refl, String, true, false, not, ◌||◌, none, some, [],
}
use provider_altinity_clickh.Prelude.Int.{pos, ◌==ℤ◌}
use provider_altinity_clickh.Prelude.Text.{str_eq, is_empty}
use provider_altinity_clickh.Prelude.Result.{ok}
use provider_altinity_clickh.Common.{tls_mode_required, component_engine, keeper_secure_port}
use provider_altinity_clickh.Operator.{OperatorStatus}
use provider_altinity_clickh.Instance.{engine_of}
use provider_altinity_clickh.Cluster.{Api, found}
use provider_altinity_clickh.Cluster.Secret.{Data}
use provider_altinity_clickh.Tls.{tls_mode, keeper_cr_name}
use provider_altinity_clickh.Tls.Resources.{serves_certificate}
use provider_altinity_clickh.Tls
use provider_altinity_clickh.Expose.{applied_tls_required}
use provider_altinity_clickh.Rollout.{credentials_secret_name}
use provider_altinity_clickh.Keeper.{KeeperWiring, next_keeper_wiring}
use provider_altinity_clickh.Keeper.Live.{plan_keeper_wiring, is_done}
use provider_altinity_clickh.Keeper.Switch.{initial, observe, apply_chk, apply_chi}
use provider_altinity_clickh.Instance.{SchedulingPolicy}
use provider_altinity_clickh.Operator.{Container, given}
use provider_altinity_clickh.Common.{label_chk_name}
use provider_altinity_clickh.Scheduling.{apply_scheduling_policy, apply_keeper_scheduling_policy}
use provider_altinity_clickh.Scheduling.Placement.{SameNodes, SpreadsOver, keeper_placement}
use provider_altinity_clickh.Render.Chi.{plain_pod, render_chi, build_chi_wired}
use provider_altinity_clickh.Render.Chk.{render_chk}
use provider_altinity_clickh.Render.Wiring.{applied_tls_required-render_chi}
use provider_altinity_clickh.Render.Certificate.{serves_certificate-rendered}
use provider_altinity_clickh.Image.Found.{HasImage}
use provider_altinity_clickh.Operator.{Chi}
use provider_altinity_clickh.Prelude.{◌↔◌}
use provider_altinity_clickh.Render.Errors.{build_chi_wired_iff, HasSettings, Answered}
use provider_altinity_clickh.Render.Switching.{
  live_chk, live_chi, rendered_chk, rendered_chi, plan_keeper_wiring-rendered,
}
use provider_altinity_clickh.Examples.Data.{shop, completed, cluster}
use provider_altinity_clickh.Examples.Exposure.{default_ports-DefaultPorts}
use provider_altinity_clickh.Examples.Environment.{runtime, runtime-FindsSet}

abbrev pub secure_wiring : KeeperWiring
secure_wiring = record { secure = true; plaintext = false; port = pos keeper_secure_port }

abbrev pub app : String × Data
app = ("app", [])

applied_tls_required-render_chi_example :
    applied_tls_required (render_chi runtime shop 2 secure_wiring "clickhouse:25.8" [] app)
    ≡ str_eq (tls_mode shop) tls_mode_required
applied_tls_required-render_chi_example =
    applied_tls_required-render_chi runtime shop 2 secure_wiring "clickhouse:25.8" [] app
      default_ports-DefaultPorts

serves_certificate-rendered_example :
    (serves_certificate runtime.has_certificate_file
        (render_chi runtime shop 2 secure_wiring "clickhouse:25.8" [] app).spec
      ≡ (not (is_empty (tls_mode shop)) || secure_wiring.port ==ℤ pos keeper_secure_port))
    × (serves_certificate runtime.has_certificate_file
          (render_chk runtime shop secure_wiring "keeper:25.8" (1, none)).spec
        ≡ secure_wiring.secure)
serves_certificate-rendered_example =
    serves_certificate-rendered runtime shop 2 secure_wiring "clickhouse:25.8" "keeper:25.8" [] app
      (1, none) runtime-FindsSet

build_chi_wired_iff_example :
    ((chi : Chi) × ((build_chi_wired runtime shop 2 secure_wiring (cluster []) []).0 ≡ ok chi)) ↔ (
      HasImage runtime shop component_engine (engine_of shop)
      × HasSettings runtime (engine_of shop)
      × Answered ((cluster []).read_secret [] (credentials_secret_name "shop")))
build_chi_wired_iff_example = build_chi_wired_iff runtime shop 2 secure_wiring (cluster []) []

-- Right after the first Sync the operator has not finished either task.
abbrev unfinished : OperatorStatus
unfinished = record completed { state = "InProgress" }

abbrev after_first_sync : Api
after_first_sync = record (cluster []) {
  read_chk = λ h name. found (
      live_chk (some "openeverest-2") (some unfinished) (
        rendered_chk runtime shop 2 secure_wiring ("keeper:25.8", "clickhouse:25.8") [] app
          (1, none)));
  read_chi = λ h name. found (
      live_chi (some "openeverest-2") (some unfinished) (
        rendered_chi runtime shop 2 secure_wiring ("keeper:25.8", "clickhouse:25.8") [] app
          (1, none)));
}

plan_keeper_wiring-rendered_example :
    (plan_keeper_wiring shop after_first_sync []).0
    ≡ ok (
        next_keeper_wiring
          (Tls.tls_enabled shop)
          (observe (apply_chi false secure_wiring (apply_chk false secure_wiring (initial true)))))
unfolding is_done apply_chk apply_chi
plan_keeper_wiring-rendered_example =
    plan_keeper_wiring-rendered runtime shop 2 (record { chk = false; chi = false }) (initial true)
      secure_wiring ("keeper:25.8", "clickhouse:25.8") [] app (1, none) (some "openeverest-2")
      (some "openeverest-2") (some unfinished) (some unfinished) after_first_sync [] refl refl refl
      refl refl

abbrev container : String → Container
container image = record {
  name = "clickhouse";
  image = image;
  ports = [];
  resources = record { cpu_limit = 1; cpu_request = 1; memory_limit = 1; memory_request = 1 };
}

abbrev on_ssd : SchedulingPolicy
on_ssd = record {
  scheduler_name = "";
  node_selector = ("disk", "ssd") ∷ [];
  tolerations = [];
  affinity = some (record {
    node_affinity = some "ssd";
    pod_affinity = none;
    pod_anti_affinity = some (given "engine");
  });
}

keeper_placement_example :
    SameNodes
      (apply_scheduling_policy runtime (plain_pod (container "clickhouse:25.8")) (some on_ssd) [])
      (apply_keeper_scheduling_policy
        (plain_pod (container "keeper:25.8"))
        (some on_ssd)
        ((label_chk_name, "shop-keeper") ∷ []))
    × SpreadsOver ((label_chk_name, "shop-keeper") ∷ []) (
        apply_keeper_scheduling_policy
          (plain_pod (container "keeper:25.8"))
          (some on_ssd)
          ((label_chk_name, "shop-keeper") ∷ []))
keeper_placement_example =
    keeper_placement runtime (plain_pod (container "clickhouse:25.8"))
      (plain_pod (container "keeper:25.8")) (some on_ssd) [] ((label_chk_name, "shop-keeper") ∷ [])
      (refl, refl, refl, refl)
