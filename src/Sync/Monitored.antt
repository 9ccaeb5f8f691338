-- ===== src/Sync/Monitored.antt =====
-- What the PodMonitor means for a Sync: it is reconciled whatever the topology came to.
use provider_altinity_clickh.Prelude.{
  Bool-cases, inl, inr, ◌≡◌, refl, ap, ◌∙◌, Bool, true, false, if◌then◌else◌,
}
use provider_altinity_clickh.Prelude.Result.{Error, wrapped, Result, ok, err}
use provider_altinity_clickh.Instance.{Instance}
use provider_altinity_clickh.Cluster.{
  Api, History, Object, pod_monitor_kind, pure, lift, continue, wrap, attempt, ◌>>=◌, ◌>>◌,
}
use provider_altinity_clickh.Cluster.Secret.{Data}
use provider_altinity_clickh.Credentials.{ensure_credentials}
use provider_altinity_clickh.Tls.Resources.{ensure_tls, is_no_match_error}
use provider_altinity_clickh.Monitoring.{
  pod_monitor_name, wants_pod_monitor, build_pod_monitor, apply_outcome, delete_monitor_outcome,
  delete_pod_monitor, reconcile_pod_monitor,
}
use provider_altinity_clickh.Sync.{Surroundings, sync_topology, sync_resources, sync}
use provider_altinity_clickh.Sync.Reporting.{sync-Publishes}
use provider_altinity_clickh.Tls

-- What is left of the outcome of the topology, when the call for the PodMonitor fails.
abbrev pub without_monitor : Instance → Error → Result (Unit {0}) → Result (Unit {0})
without_monitor instance_ e outcome =
    if is_no_match_error e
    then outcome
    else err (
        wrapped (if wants_pod_monitor instance_ then "apply PodMonitor" else "delete PodMonitor") e)

passed_on :
    (no_match : Bool) (e : Error) (outcome : Result (Unit {0})) (api : Api) (h : History)
    → (continue (if no_match then ok tt else err e) (λ done. lift outcome) api h).0
      ≡ (if no_match then outcome else err e)
passed_on true e outcome api h = refl
passed_on false e outcome api h = refl

module _ (instance_ : Instance) (api : Api) (e : Error)
    (not_applied : (g : History)
      → api.apply g (Object.pod_monitor (build_pod_monitor instance_)) ≡ err e)
    (not_deleted : (g : History)
      → api.delete g pod_monitor_kind (pod_monitor_name instance_.name) ≡ err e) where
  monitoring_fails :
      (h : History)
      → (reconcile_pod_monitor instance_ api h).0 ≡ without_monitor instance_ e (ok tt)
  unfolding reconcile_pod_monitor delete_pod_monitor apply_outcome delete_monitor_outcome
  monitoring_fails h = elim (Bool-cases (wants_pod_monitor instance_)) [
    | inl wanted ↦ rw wanted (ap apply_outcome (not_applied h))
    | inr unwanted ↦ rw unwanted (ap delete_monitor_outcome (not_deleted h))
  ]

  monitored :
      (h : History) (outcome : Result (Unit {0}))
      → ((reconcile_pod_monitor instance_ >> lift outcome) api h).0
        ≡ without_monitor instance_ e outcome
  monitored h outcome =
      ap (λ r. (continue r (λ done. lift outcome) api (reconcile_pod_monitor instance_ api h).1).0)
        (monitoring_fails h)
      ∙ passed_on (is_no_match_error e) _ outcome api (reconcile_pod_monitor instance_ api h).1

-- When the API answers every call for the PodMonitor with the same error, a Sync whose credentials
-- and certificates are ensured comes to that error, wrapped with the call that failed, whatever the
-- topology came to. Where the error says that the cluster has no PodMonitors, the Sync comes to what
-- the topology came to, also when that is an error or a wait.
pub sync-without_monitor :
    (env : Surroundings) (instance_ : Instance) (api : Api) (h h1 h2 : History) (m : Data)
    (e : Error)
    → wrap "ensure credentials" (ensure_credentials env.crypto instance_) api h ≡ (ok m, h1)
    → (if Tls.tls_enabled instance_ then ensure_tls instance_ else pure tt) api h1 ≡ (ok tt, h2)
    → ((g : History) → api.apply g (Object.pod_monitor (build_pod_monitor instance_)) ≡ err e)
    → ((g : History) → api.delete g pod_monitor_kind (pod_monitor_name instance_.name) ≡ err e)
    → (sync env instance_ api h).0
      ≡ without_monitor instance_ e (sync_topology env instance_ api h2).0
unfolding sync_resources
sync-without_monitor env instance_ api h h1 h2 m e ensured secured not_applied not_deleted =
    let topology = sync_topology env instance_ api h2 in
    let securing = if Tls.tls_enabled instance_ then ensure_tls instance_ else pure tt in
    let ending = attempt (sync_topology env instance_) >>= λ outcome.
    reconcile_pod_monitor instance_ >> lift outcome in
    (sync-Publishes env instance_ api h).0
    ∙ ap (λ r. (continue r.0 (λ done. securing >> ending) api r.1).0) ensured
    ∙ ap (λ r. (continue r.0 (λ done. ending) api r.1).0) secured
    ∙ monitored instance_ api e not_applied not_deleted topology.1 topology.0
