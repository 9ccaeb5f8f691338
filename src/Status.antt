-- ===== src/Status.antt =====
-- internal/provider/status.go, and the waits of internal/provider/provider.go: what the provider
-- reports of an Instance, and when Sync goes on.
pub mod Waits
mod Stages
pub mod Phases
pub mod Settled
mod Examples
use provider_altinity_clickh.Prelude.{
  ℕ, zero, String, Bool, true, false, not, ◌&&◌, Option, none, some, List, [], ◌∷◌, if◌then◌else◌,
  ltb, length,
}
use provider_altinity_clickh.Prelude.Int.{pos}
use provider_altinity_clickh.Prelude.Decimal.{itoa}
use provider_altinity_clickh.Prelude.Result.{Error, wait, Result, ok, err}
use provider_altinity_clickh.Prelude.Text.{str_eq, is_empty, ◌<>◌}
use provider_altinity_clickh.Operator.{
  Chi, Chk, OperatorStatus, status_completed, status_aborted, status_in_progress,
}
use provider_altinity_clickh.Instance.{Instance, get_or, is_replicated_topology}
use provider_altinity_clickh.Cluster.{
  Exec, pure, lift, ◌>>=◌, ◌>>◌, optional_result, get_chi, get_chk,
}
use provider_altinity_clickh.Rollout.{rolled_out}
use provider_altinity_clickh.Tls
use provider_altinity_clickh.Tls.{keeper_cr_name}
use provider_altinity_clickh.Tls.Resources.{server_certificate_issued}
use provider_altinity_clickh.Connection.{Urls, ConnectionDetails, build_connection_details}

pub data Phase : Type 0 where
  provisioning updating failed_phase ready : Phase

-- controller.Status, with the constructors Provisioning, Failed and ReadyWithConnectionDetails.
pub record Status : Type 0 where
  pub phase : Phase
  pub message : String
  pub connection : Option ConnectionDetails

-- The struct `installation`
pub record Reduced : Type 0 where
  pub component : String
  pub is_present : Bool
  pub state : String
  pub error : String
  pub completed_before : Bool
  pub hosts : ℕ
  pub hosts_completed : ℕ

unfoldable pub absent : String → Reduced
absent component = record {
  component = component;
  is_present = false;
  state = "";
  error = "";
  completed_before = false;
  hosts = 0;
  hosts_completed = 0;
}

unfoldable pub reduced_state : Option String → OperatorStatus → String
reduced_state task s =
    if str_eq s.state status_completed && not (rolled_out task s.task_ids_completed)
    then status_in_progress
    else s.state

unfoldable reduced : String → Option String → Option OperatorStatus → Reduced
unfolding absent reduced_state
reduced component task none = record (absent component) { is_present = true }
reduced component task (some s) = record {
  component = component;
  is_present = true;
  state = reduced_state task s;
  error = s.error;
  completed_before = ltb 0 (length s.task_ids_completed);
  hosts = s.hosts;
  hosts_completed = s.hosts_completed;
}

unfoldable pub chi_installation : Chi → Reduced
unfolding reduced
chi_installation chi = reduced "ClickHouse" chi.spec.task_id chi.status

unfoldable pub chk_installation : Chk → Reduced
unfolding reduced
chk_installation chk = reduced "ClickHouse Keeper" chk.spec.task_id chk.status

unfoldable progress_message : Reduced → String
progress_message i =
    let message = (if i.completed_before then "Updating" else "Creating") <> " " <> i.component in
    if ltb 0 i.hosts
    then message
      <> ": "
      <> itoa (pos i.hosts_completed)
      <> " of "
      <> itoa (pos i.hosts)
      <> " hosts ready"
    else message

unfoldable failed_status : Reduced → Status
failed_status i = record {
  phase = failed_phase;
  message =
      i.component
      <> ": "
      <> (if is_empty i.error then "the operator aborted the last change" else i.error);
  connection = none;
}

-- installation.status: `none` when the operator has reconciled the installation.
unfoldable pub installation_status : Reduced → (String → Status) → Option Status
unfolding progress_message failed_status
installation_status i in_progress =
    if not i.is_present
    then some (in_progress ("Creating " <> i.component))
    else if str_eq i.state status_completed
    then none
    else if str_eq i.state status_aborted
    then some (failed_status i)
    else some (in_progress (progress_message i))

-- The closure inProgress of Status
unfoldable pub in_progress : Option ConnectionDetails → String → Status
in_progress (some details) message = record {
  phase = updating;
  message = message;
  connection = some details;
}
in_progress none message = record { phase = provisioning; message = message; connection = none }

unfoldable pub reduced_chi : Option Chi → Reduced
reduced_chi none = absent "ClickHouse"
reduced_chi (some chi) = chi_installation chi

unfoldable pub reduced_chk : Option Chk → Reduced
reduced_chk none = absent "ClickHouse Keeper"
reduced_chk (some chk) = chk_installation chk

-- What the read leaves in `chi` when there is no CHI.
abbrev zero_chi : Chi
zero_chi = record {
  name = "";
  spec = record {
    task_id = none;
    configuration = none;
    templates = none;
    default_service_template = none;
  };
  status = none;
}

-- The details of a cluster that the operator has reconciled before.
unfoldable pub served_details : Urls → Instance → Option Chi → Exec (Option ConnectionDetails)
served_details urls instance_ chi = if not (reduced_chi chi).completed_before then pure none else do
  details ← build_connection_details urls instance_ (get_or chi zero_chi)
  pure (some details)

unfoldable pub replicated_status : Instance → Option ConnectionDetails → Exec (Option Status)
replicated_status instance_ conn = do
  answer ← get_chk (keeper_cr_name instance_.name)
  chk ← lift (optional_result (keeper_cr_name instance_.name) answer)
  pure (installation_status (reduced_chk chk) (in_progress conn))

unfoldable pub keeper_status : Instance → Option ConnectionDetails → Exec (Option Status)
unfolding replicated_status
keeper_status instance_ conn =
    if is_replicated_topology instance_ then replicated_status instance_ conn else pure none

unfoldable pub ready_status : Urls → Instance → Option Chi → Exec Status
ready_status urls instance_ chi = do
  details ← build_connection_details urls instance_ (get_or chi zero_chi)
  pure (record { phase = ready; message = ""; connection = some details })

-- The part of Status after both installations are reconciled.
unfoldable pub certificate_status :
    Urls → Instance → Option Chi → Option ConnectionDetails → Exec Status
unfolding ready_status
certificate_status urls instance_ chi conn =
    if not (Tls.tls_enabled instance_) then ready_status urls instance_ chi else do
      issued ← server_certificate_issued instance_
      if issued
          then ready_status urls instance_ chi
          else pure (in_progress conn "Waiting for the TLS certificate")

-- A status ends the call; without one it goes on.
unfoldable pub or_else : Option Status → Exec Status → Exec Status
or_else (some st) next = pure st
or_else none next = next

-- (p *Provider) Status
unfoldable pub status_of : Urls → Instance → Exec Status
unfolding served_details keeper_status certificate_status or_else
status_of urls instance_ = do
  answer ← get_chi instance_.name
  chi ← lift (optional_result instance_.name answer)
  conn ← served_details urls instance_ chi
  keeper ← keeper_status instance_ conn
  or_else keeper (
      or_else (installation_status (reduced_chi chi) (in_progress conn))
        (certificate_status urls instance_ chi conn))

-- waitForCHI and waitForCHK
unfoldable wait_for :
    String → String → String → String → Option String → Option OperatorStatus → Result (Unit {0})
wait_for initialize pick_up aborted_ provision task none = err (wait initialize 15)
wait_for initialize pick_up aborted_ provision task (some s) =
    if str_eq s.state status_completed
    then if rolled_out task s.task_ids_completed then ok tt else err (wait pick_up 15)
    else if str_eq s.state status_aborted
    then err (wait (aborted_ <> s.error) 30)
    else err (wait provision 15)

unfoldable pub wait_for_chi : Chi → Result (Unit {0})
unfolding wait_for
wait_for_chi chi =
    wait_for "waiting for Altinity operator to initialize CHI"
      "waiting for Altinity operator to pick up the ClickHouseInstallation change"
      "ClickHouseInstallation aborted: "
      "waiting for Altinity operator to complete CHI provisioning" chi.spec.task_id chi.status

unfoldable pub wait_for_chk : Chk → Result (Unit {0})
unfolding wait_for
wait_for_chk chk =
    wait_for "waiting for Keeper to initialize"
      "waiting for Altinity operator to pick up the Keeper change"
      "ClickHouseKeeperInstallation aborted: " "waiting for Keeper to complete provisioning"
      chk.spec.task_id chk.status
