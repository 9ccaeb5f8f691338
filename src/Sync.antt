-- ===== src/Sync.antt =====
-- internal/provider/provider.go, Sync: what a reconciliation does, in its order, and what it
-- publishes of the Instance's status while it waits.
pub mod Publishing
pub mod Effects
pub mod Preparing
pub mod Holding
pub mod Done
pub mod Certified
pub mod Finishing
pub mod Gated
pub mod Once
pub mod Progress
pub mod Reporting
pub mod Monitored
use provider_altinity_clickh.Prelude.{
  ℕ, String, Bool, true, false, not, ◌&&◌, ◌||◌, List, [], ◌∷◌, if◌then◌else◌, length,
}
use provider_altinity_clickh.Prelude.Int.{pos, ◌==ℤ◌}
use provider_altinity_clickh.Prelude.Decimal.{itoa}
use provider_altinity_clickh.Prelude.Text.{str_eq, ◌<>◌}
use provider_altinity_clickh.Prelude.Result.{Error, wait, is_wait_error, Result, ok, err}
use provider_altinity_clickh.Operator.{Chi, Chk}
use provider_altinity_clickh.Instance.{Instance, InstanceStatus, Condition, is_replicated_topology}
use provider_altinity_clickh.Cluster.{
  History, Read, found, missing, failed, Exec, pure, lift, raise, ◌>>=◌, ◌>>◌, wrap, attempt,
  get_chi, get_chk, update_status,
}
use provider_altinity_clickh.Runtime.{Runtime}
use provider_altinity_clickh.Rollout.{
  Fingerprints, RolloutGate, clickhouse, keeper, new_rollout_gate, gate_apply,
}
use provider_altinity_clickh.Sizing.{replicas_count}
use provider_altinity_clickh.Tls
use provider_altinity_clickh.Tls.{keeper_cr_name}
use provider_altinity_clickh.Tls.Resources.{ensure_tls, cleanup_tls}
use provider_altinity_clickh.Keeper.{KeeperWiring}
use provider_altinity_clickh.Keeper.Live.{plan_keeper_wiring}
use provider_altinity_clickh.Credentials.{Crypto, ensure_credentials}
use provider_altinity_clickh.Connection.{Urls}
use provider_altinity_clickh.NetPol.{OperatorEnvironment, reconcile_plaintext_policy}
use provider_altinity_clickh.Monitoring.{reconcile_pod_monitor}
use provider_altinity_clickh.Status.{Status, status_of, wait_for_chi, wait_for_chk}
use provider_altinity_clickh.Render.Chi.{build_chi, build_chi_wired}
use provider_altinity_clickh.Render.Chk.{build_chk_wired}

-- What Sync is given: the runtime and the packages around it. `to_v2alpha1` gives the phase and the
-- message of a Status; the context knows from its calls whether maintenance was requested, and which
-- actions are held.
pub record Surroundings : Type 0 where
  pub runtime : Runtime
  pub prints : Fingerprints
  pub crypto : Crypto
  pub urls : Urls
  pub environment : OperatorEnvironment
  pub to_v2alpha1 : Status → String × String
  pub maintenance_requested : History → Bool
  pub pending_maintenance : History → List String

-- What the context answers, without a call to the cluster.
abbrev from_context : {A : Type 0} → (History → A) → Exec A
from_context f api h = (ok (f h), h)

abbrev pub same_list : List String → List String → Bool
same_list [] [] = true
same_list (s ∷ ss) (t ∷ ts) = str_eq s t && same_list ss ts
same_list _ _ = false

abbrev pub same_wiring : KeeperWiring → KeeperWiring → Bool
same_wiring v w =
    (if v.secure then w.secure else not w.secure)
    && (if v.plaintext then w.plaintext else not w.plaintext)
    && v.port ==ℤ w.port

unfoldable pub awaiting_approval : Runtime → ℕ → List String → Condition
awaiting_approval rt generation pending = record {
  kind = rt.condition_maintenance_pending;
  status = "True";
  reason = rt.reason_awaiting_approval;
  message = itoa (pos (length pending)) <> " action(s) require approval to proceed";
  observed_generation = generation;
}

unfoldable pub nothing_pending : Runtime → ℕ → Condition
nothing_pending rt generation = record {
  kind = rt.condition_maintenance_pending;
  status = "False";
  reason = rt.reason_no_actions_pending;
  message = "No disruptive actions are held";
  observed_generation = generation;
}

-- meta.SetStatusCondition on the conditions of a status
unfoldable pub with_condition : Runtime → Condition → Bool → InstanceStatus → InstanceStatus × Bool
with_condition rt condition changed status =
    let (conditions, set_) = rt.set_status_condition status.conditions condition in
    (record status { conditions = conditions }, changed || set_)

-- setPendingMaintenance: the status after it, and whether it changed.
unfoldable pub set_pending_maintenance :
    Runtime → ℕ → List String → InstanceStatus → InstanceStatus × Bool
unfolding awaiting_approval nothing_pending with_condition
set_pending_maintenance rt generation [] status =
    let changed = not (same_list status.pending_maintenance []) in
    let status' = record status { pending_maintenance = [] } in
    if not (rt.has_condition status.conditions rt.condition_maintenance_pending)
    then (status', changed)
    else with_condition rt (nothing_pending rt generation) changed status'
set_pending_maintenance rt generation (action ∷ pending) status =
    with_condition rt (awaiting_approval rt generation (action ∷ pending))
      (not (same_list status.pending_maintenance (action ∷ pending)))
      (record status { pending_maintenance = action ∷ pending })

-- reportStatus up to the update: the status to publish, and whether it changed.
unfoldable pub desired_status :
    Surroundings → Instance → Status → Bool → List String → InstanceStatus × Bool
unfolding set_pending_maintenance
desired_status env instance_ st requested pending =
    let old = instance_.status in
    let (phase, message) = env.to_v2alpha1 st in
    let changed = not (str_eq old.phase phase) || not (str_eq old.message message) in
    let status = record old { phase = phase; message = message } in
    let (status', held) = set_pending_maintenance env.runtime instance_.generation pending status in
    if requested then (status', changed || held) else (status, changed)

unfoldable pub report_status : Surroundings → Instance → Status → Exec (Unit {0})
unfolding desired_status
report_status env instance_ st = do
  requested ← from_context env.maintenance_requested
  pending ← from_context env.pending_maintenance
  let desired = desired_status env instance_ st requested pending
  if desired.1 then update_status desired.0 else pure tt

-- A read that has to find the object: whatever it answers otherwise, Sync waits.
abbrev pub or_wait : {A : Type 0} → String → Read A → Result A
or_wait message (found a) = ok a
or_wait message missing = err (wait message 15)
or_wait message (failed e) = err (wait message 15)

unfoldable pub apply_and_wait_for_chi :
    Surroundings → Instance → RolloutGate → Chi → Exec (Unit {0})
apply_and_wait_for_chi env instance_ gate chi = do
  wrap "apply ClickHouseInstallation" (gate_apply env.prints instance_ gate (clickhouse chi) "chi")
  answer ← get_chi instance_.name
  current ←
      lift (or_wait "waiting for Altinity operator to provision ClickHouseInstallation" answer)
  reconcile_plaintext_policy env.environment instance_ current
  lift (wait_for_chi current)
  if not (Tls.tls_enabled instance_)
      then cleanup_tls env.runtime.has_certificate_file instance_ current
      else pure tt

unfoldable pub sync_standalone : Surroundings → Instance → Exec (Unit {0})
sync_standalone env instance_ = do
  chi ← wrap "build ClickHouseInstallation" (build_chi env.runtime instance_ 1)
  gate ← new_rollout_gate env.prints instance_ (clickhouse chi ∷ [])
  apply_and_wait_for_chi env instance_ gate chi

-- The CHK and the CHI that are rendered for a wiring.
unfoldable pub build_both : Surroundings → Instance → KeeperWiring → Exec (Chk × Chi)
build_both env instance_ wiring = do
  chk ← wrap "build ClickHouseKeeperInstallation" (build_chk_wired env.runtime instance_ wiring)
  chi ←
      wrap "build ClickHouseInstallation"
        (build_chi_wired env.runtime instance_ (replicas_count instance_) wiring)
  pure (chk, chi)

-- syncReplicated, from the apply of the CHK to the wait for Keeper
unfoldable pub apply_and_wait_for_chk :
    Surroundings → Instance → RolloutGate → Chk → Exec RolloutGate
apply_and_wait_for_chk env instance_ gate chk = do
  applied ←
      wrap "apply ClickHouseKeeperInstallation"
        (gate_apply env.prints instance_ gate (keeper chk) "chk")
  answer ← get_chk (keeper_cr_name instance_.name)
  current ← lift (or_wait "waiting for Keeper to initialize" answer)
  lift (wait_for_chk current)
  pure applied.0

unfoldable pub settled : KeeperWiring × KeeperWiring → Result (Unit {0})
settled (step, target) =
    if same_wiring step target
    then ok tt
    else err (wait "switching ClickHouse and Keeper to the new Keeper ports" 5)

unfoldable pub sync_replicated : Surroundings → Instance → Exec (Unit {0})
unfolding build_both settled
sync_replicated env instance_ = do
  plan ← plan_keeper_wiring instance_
  desired ← build_both env instance_ plan.0
  target ← build_both env instance_ plan.1
  gate ← new_rollout_gate env.prints instance_ (keeper target.0 ∷ clickhouse target.1 ∷ [])
  gate' ← apply_and_wait_for_chk env instance_ gate desired.0
  apply_and_wait_for_chi env instance_ gate' desired.1
  lift (settled plan)

unfoldable pub sync_topology : Surroundings → Instance → Exec (Unit {0})
sync_topology env instance_ =
    if is_replicated_topology instance_
    then sync_replicated env instance_
    else sync_standalone env instance_

-- (p *Provider) sync
unfoldable pub sync_resources : Surroundings → Instance → Exec (Unit {0})
sync_resources env instance_ = do
  wrap "ensure credentials" (ensure_credentials env.crypto instance_)
  if Tls.tls_enabled instance_ then ensure_tls instance_ else pure tt
  outcome ← attempt (sync_topology env instance_)
  reconcile_pod_monitor instance_
  lift outcome

unfoldable pub report_outcome : Surroundings → Instance → Result Status → Exec (Unit {0})
report_outcome env instance_ (ok st) = report_status env instance_ st
report_outcome env instance_ (err e) = pure tt

unfoldable pub publish : Surroundings → Instance → Result (Unit {0}) → Exec (Unit {0})
unfolding report_outcome
publish env instance_ (ok tt) = pure tt
publish env instance_ (err e) =
    if not (is_wait_error e)
    then pure tt
    else do answer ← attempt (status_of env.urls instance_); report_outcome env instance_ answer

-- (p *Provider) Sync
unfoldable pub sync : Surroundings → Instance → Exec (Unit {0})
unfolding publish
sync env instance_ = do
  outcome ← attempt (sync_resources env instance_)
  publish env instance_ outcome
  lift outcome
