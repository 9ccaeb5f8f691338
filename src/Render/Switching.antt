-- ===== src/Render/Switching.antt =====
-- The rendered CHI and CHK as a step of the switch of Keeper's ports: what the next Sync reads back
-- from them, planKeeperWiring of internal/provider/keeper_tls.go, is what the switch's own states
-- lead to.
use provider_altinity_clickh.Prelude.{
  ℕ, ◌≡◌, sym, ap, ◌∙◌, String, Bool, true, Option, some, ◌∷◌, ltb, arith, if◌then◌else◌,
}
use provider_altinity_clickh.Prelude.Int.{ℤ, minus_one, ==ℤ_iff}
use provider_altinity_clickh.Prelude.Result.{ok}
use provider_altinity_clickh.Operator
use provider_altinity_clickh.Operator.{OperatorStatus, Settings}
use provider_altinity_clickh.Instance.{Instance}
use provider_altinity_clickh.Cluster.{Api, History, found, read, chk_kind}
use provider_altinity_clickh.Cluster.Secret.{Data}
use provider_altinity_clickh.Runtime.{Runtime}
use provider_altinity_clickh.Tls.{keeper_cr_name}
use provider_altinity_clickh.Tls
use provider_altinity_clickh.Keeper.{
  KeeperWiring, KeeperState, next_keeper_wiring, chk_ports, chi_keeper_port,
}
use provider_altinity_clickh.Keeper.Live.{
  is_done, nothing_live, keeper_part, clickhouse_part, live_keeper_state, plan_keeper_wiring,
}
use provider_altinity_clickh.Keeper.Switch.{Repeats, Switch, observe, apply_chk, apply_chi}
use provider_altinity_clickh.Render.Chi.{render_chi}
use provider_altinity_clickh.Render.Chk.{render_chk}
use provider_altinity_clickh.Render.Wiring.{chk_ports-render_chk, chi_keeper_port-render_chi}

-- What is live once a rendering is applied: its spec with a task ID, and the operator's status.
abbrev pub live_chk : Option String → Option OperatorStatus → Operator.Chk → Operator.Chk
live_chk task status chk = record chk {
  spec = record (chk.spec) { task_id = task };
  status = status;
}

abbrev pub live_chi : Option String → Option OperatorStatus → Operator.Chi → Operator.Chi
live_chi task status chi = record chi {
  spec = record (chi.spec) { task_id = task };
  status = status;
}

abbrev state_of : Bool → Bool × Bool → Bool → ℤ → KeeperState
state_of chk_done ports chi_done port = record {
  chk_exists = true;
  chk_rolled_out = chk_done;
  chk_secure = ports.0;
  chk_plaintext = ports.1;
  chi_exists = true;
  chi_rolled_out = chi_done;
  chi_port = port;
}

observe-apply :
    (again : Repeats) (w : Switch) (step : KeeperWiring)
    → observe (apply_chi again.chi step (apply_chk again.chk step w))
      ≡ state_of
          (apply_chk again.chk step w).chk_rolled_out
          (step.secure, step.plaintext)
          (apply_chi again.chi step w).chi_rolled_out
          step.port
unfolding apply_chk apply_chi
observe-apply again w step = ground (arith, ==ℤ_iff w.chi_port step.port)

module _ (rt : Runtime) (instance_ : Instance) (n : ℕ) (step : KeeperWiring)
    (images : String × String) (settings : Settings) (credentials : String × Data)
    (storage : ℕ × Option String) where
  abbrev pub rendered_chk : Operator.Chk
  rendered_chk = render_chk rt instance_ step images.0 storage

  abbrev pub rendered_chi : Operator.Chi
  rendered_chi = render_chi rt instance_ n step images.1 settings credentials

  observed :
      (keeper_task chi_task : Option String) (keeper_status chi_status : Option OperatorStatus)
      → ltb 1 n ≡ true
      → clickhouse_part
          (some (live_chi chi_task chi_status rendered_chi))
          (keeper_part (some (live_chk keeper_task keeper_status rendered_chk)) nothing_live)
        ≡ state_of
            (is_done keeper_task keeper_status)
            (step.secure, step.plaintext)
            (is_done chi_task chi_status)
            step.port
  unfolding clickhouse_part keeper_part chk_ports chi_keeper_port
  observed keeper_task chi_task keeper_status chi_status many =
      let keeper_done = is_done keeper_task keeper_status in
      let chi_done = is_done chi_task chi_status in
      ap (λ ports. state_of keeper_done ports chi_done (chi_keeper_port rendered_chi))
        (chk_ports-render_chk rt instance_ step images.0 storage)
      ∙ ap (state_of keeper_done (step.secure, step.plaintext) chi_done) (
          chi_keeper_port-render_chi rt instance_ n step images.1 settings credentials
          ∙ ap (λ b. if b then step.port else minus_one) many)

-- Refinement: after a Sync applied the CHK and the CHI that it rendered for a step with at least two
-- replicas, whatever the operator's status said of the renderings, and as long as it counts each of
-- them as rolled out exactly when the switch does, the next Sync plans what the switch plans in the state that the step leads to.
pub plan_keeper_wiring-rendered :
    (rt : Runtime) (instance_ : Instance) (n : ℕ) (again : Repeats) (w : Switch)
    (step : KeeperWiring) (images : String × String) (settings : Settings)
    (credentials : String × Data) (storage : ℕ × Option String)
    (keeper_task chi_task : Option String) (keeper_status chi_status : Option OperatorStatus)
    (api : Api) (h : History)
    → ltb 1 n ≡ true
    → is_done keeper_task keeper_status ≡ (apply_chk again.chk step w).chk_rolled_out
    → is_done chi_task chi_status ≡ (apply_chi again.chi step w).chi_rolled_out
    → api.read_chk h (keeper_cr_name instance_.name)
      ≡ found (
          live_chk keeper_task keeper_status
            (rendered_chk rt instance_ n step images settings credentials storage))
    → api.read_chi (read chk_kind (keeper_cr_name instance_.name) ∷ h) instance_.name
      ≡ found (
          live_chi chi_task chi_status
            (rendered_chi rt instance_ n step images settings credentials storage))
    → (plan_keeper_wiring instance_ api h).0
      ≡ ok (
          next_keeper_wiring
            (Tls.tls_enabled instance_)
            (observe (apply_chi again.chi step (apply_chk again.chk step w))))
unfolding plan_keeper_wiring live_keeper_state
plan_keeper_wiring-rendered rt instance_ n again w step images settings credentials storage
      keeper_task chi_task keeper_status chi_status api h many keeper_done chi_done keeper_live
      chi_live =
    let seen =
      observed rt instance_ n step images settings credentials storage keeper_task chi_task
        keeper_status chi_status many in
    rw (keeper_live, chi_live)
      (ap (λ state. ok (next_keeper_wiring (Tls.tls_enabled instance_) state))
        (seen
          ∙ ap
              (λ b.
                state_of b (step.secure, step.plaintext) (is_done chi_task chi_status) step.port)
              keeper_done
          ∙ ap
              (λ b.
                state_of (apply_chk again.chk step w).chk_rolled_out (step.secure, step.plaintext) b
                  step.port)
              chi_done
          ∙ sym (observe-apply again w step)))
