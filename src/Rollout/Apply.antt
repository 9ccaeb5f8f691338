-- ===== src/Rollout/Apply.antt =====
-- Several applies with one gate: one maintenance request for both objects of an Instance, and an
-- apply that is repeated with nothing changed.
use provider_altinity_clickh.Prelude.{
  ℕ, ◌+◌, ◌≤◌, ◌≡◌, refl, inl, inr, String, Bool, true, false, Option, none, some, ◌∷◌, arith,
  eq_iff, ◌∙◌, ◌&&◌, if◌then◌else◌, is_some,
}
use provider_altinity_clickh.Prelude.Text.{str_eq}
use provider_altinity_clickh.Prelude.Result.{Result, ok, err}
use provider_altinity_clickh.Instance.{Instance}
use provider_altinity_clickh.Cluster.{Object, applied, maintenance_requested, History, Api}
use provider_altinity_clickh.Rollout.{
  Installation, RolloutGate, recorded_spec, recorded_inputs, is_unchanged, is_stamped,
  stamp_task_id, to_object, apply_allowed, record_applied, gate_live,
}
use provider_altinity_clickh.Rollout.Decision.{
  requests, is_allowed_iff, gate_live_attributed, gate_live_decided, gate_live_requested,
}

-- How many requests a gate can still make.
abbrev room : Option Bool → ℕ
room none = 1
room (some b) = 0

abbrev pub wrap_result {ℓ} : {A : Type ℓ} → Result (Unit {0}) → A → Result A
wrap_result (ok _) a = ok a
wrap_result (err e) a = err e

abbrev kept_room : Result (RolloutGate × Bool) → ℕ
kept_room (ok (g, b)) = room g.approved
kept_room (err e) = 0

requests-apply_allowed :
    (instance_ : Instance) (g : RolloutGate) (key spec : String) (live : Option Installation)
    (api : Api) (h : History) (obj : Installation)
    → let r = apply_allowed instance_ g obj key spec live api h in
      (requests r.1 ≡ requests h) × (kept_room r.0 ≤ room g.approved)
unfolding apply_allowed
requests-apply_allowed instance_ g key spec live api h (Installation.clickhouse chi) = ground arith
requests-apply_allowed instance_ g key spec live api h (Installation.keeper chk) = ground arith

-- An apply spends at most the room that the gate has.
requests-gate_live :
    (instance_ : Instance) (g : RolloutGate) (obj : Installation) (key spec : String)
    (live : Option Installation) (api : Api) (h : History)
    → let r = gate_live instance_ g obj key spec live api h in
      requests r.1 + kept_room r.0 ≤ requests h + room g.approved
requests-gate_live instance_ g obj key spec live api h =
    let attributed = gate_live_attributed instance_ g obj key spec live api h in
    let approved = gate_live_decided instance_ g obj key spec live api h true in
    let denied = gate_live_decided instance_ g obj key spec live api h false in
    let requested = gate_live_requested instance_ g obj key spec live api h in
    let kept = requests-apply_allowed instance_ g key spec live api h obj in
    let h' = maintenance_requested g.token ∷ h in
    let kept' =
      requests-apply_allowed instance_ (record g { approved = some true }) key spec live api h'
        obj in
    ground arith

-- Keeper and ClickHouse of one Sync, with any other calls but maintenance requests between the two
-- applies: maintenance is requested at most once for both.
pub one_request_for_both :
    (instance_ : Instance) (g : RolloutGate) (chk chi : Installation) (chk_spec chi_spec : String)
    (live live' : Option Installation) (api : Api) (h h' : History) (g' : RolloutGate) (done : Bool)
    → (gate_live instance_ g chk "chk" chk_spec live api h).0 ≡ ok (g', done)
    → requests h' ≡ requests (gate_live instance_ g chk "chk" chk_spec live api h).1
    → requests (gate_live instance_ g' chi "chi" chi_spec live' api h').1 ≤ requests h + 1
one_request_for_both instance_ g chk chi chk_spec chi_spec live live' api h h' g' done e between =
    let first = requests-gate_live instance_ g chk "chk" chk_spec live api h in
    let second = requests-gate_live instance_ g' chi "chi" chi_spec live' api h' in ground arith

-- The object that an apply hands to the API.
abbrev pub sent : RolloutGate → Installation → String → String → Option Installation → Object
sent g obj key spec live =
    to_object (if is_stamped g key spec live then stamp_task_id obj spec else obj)

record_applied_same :
    (instance_ : Instance) (g : RolloutGate) (key spec : String) (api : Api) (h : History)
    → (is_unchanged g key spec && str_eq (recorded_inputs g key) g.inputs) ≡ true
    → record_applied instance_ g key spec api h ≡ (ok (g, true), h)
unfolding record_applied
record_applied_same instance_ g key spec api h e = rw e

apply_allowed_same :
    (instance_ : Instance) (g : RolloutGate) (obj : Installation) (key spec : String)
    (live : Option Installation) (api : Api) (h : History) (r : Result (Unit {0}))
    → (is_unchanged g key spec && str_eq (recorded_inputs g key) g.inputs) ≡ true
    → api.apply h (sent g obj key spec live) ≡ r
    → apply_allowed instance_ g obj key spec live api h
      ≡ (wrap_result r (g, true), applied (sent g obj key spec live) ∷ h)
unfolding apply_allowed
apply_allowed_same instance_ g obj key spec live api h (ok tt) e a =
    rw a (record_applied_same instance_ g key spec api _ e)
apply_allowed_same instance_ g obj key spec live api h (err x) e a = rw a

-- Applying a recorded rendering again, from the recorded inputs, asks for nothing and records
-- nothing: the one call that it makes is the server-side apply, and the gate stays as it is.
pub gate_live_again :
    (instance_ : Instance) (g : RolloutGate) (obj : Installation) (key spec : String)
    (live : Option Installation) (api : Api) (h : History)
    → recorded_spec g key ≡ spec
    → recorded_inputs g key ≡ g.inputs
    → gate_live instance_ g obj key spec live api h ≡ (
      wrap_result (api.apply h (sent g obj key spec live)) (g, true),
      applied (sent g obj key spec live) ∷ h,
    )
gate_live_again instance_ g obj key spec live api h e i =
    gate_live_attributed instance_ g obj key spec live api h
      ((is_allowed_iff g (is_some live) key spec).1 (inr (inr (inl e))))
    ∙ apply_allowed_same instance_ g obj key spec live api h _
        (ground (arith, eq_iff (recorded_spec g key) spec, eq_iff (recorded_inputs g key) g.inputs))
        refl
