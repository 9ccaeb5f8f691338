-- ===== src/Keeper/Live.antt =====
-- internal/provider/keeper_tls.go: what the operator has rolled out, read from the cluster, and the
-- step that it leads to.
use provider_altinity_clickh.Prelude.{String, Bool, true, false, ◌&&◌, Option, none, some}
use provider_altinity_clickh.Prelude.Int.{minus_one}
use provider_altinity_clickh.Prelude.Text.{str_eq}
use provider_altinity_clickh.Operator.{Chi, Chk, OperatorStatus, status_completed}
use provider_altinity_clickh.Instance.{Instance}
use provider_altinity_clickh.Cluster.{Exec, pure, lift, ◌>>=◌, optional_result, get_chi, get_chk}
use provider_altinity_clickh.Rollout.{rolled_out}
use provider_altinity_clickh.Tls.{keeper_cr_name}
use provider_altinity_clickh.Tls
use provider_altinity_clickh.Keeper.{
  KeeperWiring, KeeperState, next_keeper_wiring, chk_ports, chi_keeper_port,
}

unfoldable pub is_done : Option String → Option OperatorStatus → Bool
is_done task none = false
is_done task (some s) = str_eq s.state status_completed && rolled_out task s.task_ids_completed

-- The state before anything is read: `keeperState{chiPort: -1}`.
abbrev pub nothing_live : KeeperState
nothing_live = record {
  chk_exists = false;
  chk_rolled_out = false;
  chk_secure = false;
  chk_plaintext = false;
  chi_exists = false;
  chi_rolled_out = false;
  chi_port = minus_one;
}

unfoldable pub keeper_part : Option Chk → KeeperState → KeeperState
unfolding is_done
keeper_part none s = s
keeper_part (some chk) s = record s {
  chk_exists = true;
  chk_secure = (chk_ports chk).0;
  chk_plaintext = (chk_ports chk).1;
  chk_rolled_out = is_done chk.spec.task_id chk.status;
}

unfoldable pub clickhouse_part : Option Chi → KeeperState → KeeperState
unfolding is_done
clickhouse_part none s = s
clickhouse_part (some chi) s = record s {
  chi_exists = true;
  chi_port = chi_keeper_port chi;
  chi_rolled_out = is_done chi.spec.task_id chi.status;
}

unfoldable pub live_keeper_state : Instance → Exec KeeperState
unfolding keeper_part clickhouse_part
live_keeper_state instance_ = do
  keeper_answer ← get_chk (keeper_cr_name instance_.name)
  chk ← lift (optional_result (keeper_cr_name instance_.name) keeper_answer)
  answer ← get_chi instance_.name
  chi ← lift (optional_result instance_.name answer)
  pure (clickhouse_part chi (keeper_part chk nothing_live))

-- The step to apply now, and the target that the approval covers.
unfoldable pub plan_keeper_wiring : Instance → Exec (KeeperWiring × KeeperWiring)
unfolding live_keeper_state
plan_keeper_wiring instance_ = do
  state ← live_keeper_state instance_
  pure (next_keeper_wiring (Tls.tls_enabled instance_) state)
