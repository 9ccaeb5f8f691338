-- ===== src/Monitoring.antt =====
-- internal/provider/monitoring.go: the PodMonitor of an Instance. A cluster without the CRD of the
-- prometheus-operator answers with the NoMatch error, which is passed over.
use provider_altinity_clickh.Prelude.{Bool, not, String, if◌then◌else◌}
use provider_altinity_clickh.Prelude.Text.{equal_fold, ◌<>◌}
use provider_altinity_clickh.Prelude.Result.{wrapped, Result, ok, err}
use provider_altinity_clickh.Common.{
  label_chi_name, metrics_port_name, metrics_path, pod_monitor_enabled,
}
use provider_altinity_clickh.Instance.{Instance, engine_of, parameters_of}
use provider_altinity_clickh.Cluster.Objects.{PodMonitor}
use provider_altinity_clickh.Cluster.{
  Object, Exec, lift, ◌>>=◌, attempt, apply, delete, pod_monitor_kind,
}
use provider_altinity_clickh.Tls.Resources.{is_no_match_error}

abbrev pub pod_monitor_name : String → String
pod_monitor_name instance_name = instance_name <> "-metrics"

unfoldable pub wants_pod_monitor : Instance → Bool
wants_pod_monitor instance_ =
    equal_fold (parameters_of (engine_of instance_)).pod_monitor pod_monitor_enabled

unfoldable pub build_pod_monitor : Instance → PodMonitor
build_pod_monitor instance_ = record {
  name = pod_monitor_name instance_.name;
  selector = (label_chi_name, instance_.name);
  port = metrics_port_name;
  path = metrics_path;
}

unfoldable pub apply_outcome : Result (Unit {0}) → Result (Unit {0})
apply_outcome (ok tt) = ok tt
apply_outcome (err e) = if is_no_match_error e then ok tt else err (wrapped "apply PodMonitor" e)

unfoldable pub delete_monitor_outcome : Result (Unit {0}) → Result (Unit {0})
delete_monitor_outcome (ok tt) = ok tt
delete_monitor_outcome (err e) =
    if is_no_match_error e then ok tt else err (wrapped "delete PodMonitor" e)

unfoldable pub delete_pod_monitor : Instance → Exec (Unit {0})
unfolding delete_monitor_outcome
delete_pod_monitor instance_ = do
  outcome ← attempt (delete pod_monitor_kind (pod_monitor_name instance_.name))
  lift (delete_monitor_outcome outcome)

unfoldable pub reconcile_pod_monitor : Instance → Exec (Unit {0})
unfolding apply_outcome delete_pod_monitor
reconcile_pod_monitor instance_ =
    if not (wants_pod_monitor instance_) then delete_pod_monitor instance_ else do
      outcome ← attempt (apply (Object.pod_monitor (build_pod_monitor instance_)))
      lift (apply_outcome outcome)
