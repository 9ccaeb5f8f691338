-- ===== src/Status/Waits.antt =====
-- Sync's waits and Status read the same operator status: they agree on when an installation is done.
use provider_altinity_clickh.Prelude.{
  ◌≡◌, ◌↔◌, String, Bool, true, false, Option, none, some, arith, eq_iff, if-elim, if◌then◌else◌,
  not, ◌&&◌,
}
use provider_altinity_clickh.Prelude.Text.{str_eq}
use provider_altinity_clickh.Prelude.Result.{ok}
use provider_altinity_clickh.Operator.{
  Chi, Chk, OperatorStatus, status_completed, status_in_progress,
}
use provider_altinity_clickh.Rollout.{rolled_out}
use provider_altinity_clickh.Status.{
  Status, Reduced, installation_status, wait_for_chi, wait_for_chk, chi_installation,
  chk_installation, wait_for, reduced, reduced_state,
}

conditional_iff :
    (absent completed aborted : Bool) (x y z : Status)
    → ((if absent then some x else if completed then none else if aborted then some y else some z)
        ≡ none)
      ↔ ((absent ≡ false) × (completed ≡ true))
conditional_iff absent completed aborted x y z = ground arith

installation_status_iff :
    (i : Reduced) (report : String → Status)
    → (installation_status i report ≡ none)
      ↔ ((not i.is_present ≡ false) × (str_eq i.state status_completed ≡ true))
unfolding installation_status
installation_status_iff i report = conditional_iff _ _ _ _ _ _

reduced_state_iff :
    (task : Option String) (s : OperatorStatus)
    → (str_eq (reduced_state task s) status_completed ≡ true)
      ↔ ((str_eq s.state status_completed ≡ true) × (rolled_out task s.task_ids_completed ≡ true))
unfolding reduced_state
reduced_state_iff task s =
    if-elim
      (λ state. (str_eq state status_completed ≡ true) ↔ (
        (str_eq s.state status_completed ≡ true) × (rolled_out task s.task_ids_completed ≡ true)))
      (str_eq s.state status_completed && not (rolled_out task s.task_ids_completed))
      (λ h. ground (arith, eq_iff status_in_progress status_completed)) (λ h. ground arith)

wait_for_iff :
    (a b c d component : String) (task : Option String) (s : Option OperatorStatus)
    (report : String → Status)
    → (wait_for a b c d task s ≡ ok tt)
      ↔ (installation_status (reduced component task s) report ≡ none)
unfolding wait_for reduced
wait_for_iff a b c d component task none report =
    let done = installation_status_iff (reduced component task none) report in
    ground (arith, eq_iff "" status_completed)
wait_for_iff a b c d component task (some s) report =
    let done = installation_status_iff (reduced component task (some s)) report in
    let state = reduced_state_iff task s in ground arith

pub wait_for_chi_iff :
    (chi : Chi) (report : String → Status)
    → (wait_for_chi chi ≡ ok tt) ↔ (installation_status (chi_installation chi) report ≡ none)
unfolding wait_for_chi chi_installation
wait_for_chi_iff chi report = wait_for_iff _ _ _ _ _ chi.spec.task_id chi.status report

pub wait_for_chk_iff :
    (chk : Chk) (report : String → Status)
    → (wait_for_chk chk ≡ ok tt) ↔ (installation_status (chk_installation chk) report ≡ none)
unfolding wait_for_chk chk_installation
wait_for_chk_iff chk report = wait_for_iff _ _ _ _ _ chk.spec.task_id chk.status report

-- Sync goes on past an installation exactly when Status regards it as done: for the CHI and for the
-- CHK, however Status turns a message into a status.
pub waits_iff :
    (chi : Chi) (chk : Chk) (report : String → Status)
    → ((wait_for_chi chi ≡ ok tt) ↔ (installation_status (chi_installation chi) report ≡ none))
      × ((wait_for_chk chk ≡ ok tt) ↔ (installation_status (chk_installation chk) report ≡ none))
waits_iff chi chk report = (wait_for_chi_iff chi report, wait_for_chk_iff chk report)
