-- ===== src/Rollout/Decision.antt =====
-- When rolloutGate.apply applies an object, and when it holds it back.
use provider_altinity_clickh.Prelude.{
  Option-cases, Bool-cases, ℕ, suc, ◌≡◌, ◌≢◌, ◌↔◌, ◌⊎◌, inl, inr, String, Bool, true, false, Option,
  none, some, [], ◌∷◌, arith, eq_iff, Bool-cases, is_some, if◌then◌else◌, Option-cases,
}
use provider_altinity_clickh.Prelude.Text.{is_empty_iff}
use provider_altinity_clickh.Prelude.Result.{ok}
use provider_altinity_clickh.Instance.{Instance}
use provider_altinity_clickh.Cluster.{Object, Event, applied, maintenance_requested, History, Api}
use provider_altinity_clickh.Cluster.Secret.{get}
use provider_altinity_clickh.Rollout.{
  Installation, RolloutGate, target_key, recorded_spec, recorded_inputs, is_allowed, apply_allowed,
  gate_live,
}

-- The reasons to apply without asking: the object is new, or was last applied before the record
-- existed, or is unchanged; the user changed the Instance; or a step of an approved change is due.
abbrev pub Attributed : RolloutGate → Bool → String → String → Type 0
Attributed g exists key spec =
    (exists ≡ false)
    ⊎ (recorded_spec g key ≡ "")
    ⊎ (recorded_spec g key ≡ spec)
    ⊎ ((recorded_inputs g key ≢ "") × (recorded_inputs g key ≢ g.inputs))
    ⊎ (get target_key g.recorded ≡ g.token)

-- The gate applies an object without asking exactly when it does not exist, nothing or this very
-- rendering is recorded for it, it was recorded from inputs that have changed since, or the change
-- of this token is under way.
pub is_allowed_iff :
    (g : RolloutGate) (exists : Bool) (key spec : String)
    → (is_allowed g exists key spec ≡ true) ↔ Attributed g exists key spec
unfolding is_allowed
is_allowed_iff g exists key spec = ground (
  arith,
  is_empty_iff (recorded_spec g key),
  is_empty_iff (recorded_inputs g key),
  eq_iff (recorded_spec g key) spec,
  eq_iff (recorded_inputs g key) g.inputs,
  eq_iff (get target_key g.recorded) g.token,
)

-- How often a CHI or CHK was applied, and how often maintenance was requested.
abbrev is_installation : Event → Bool
is_installation (applied (Object.chi x)) = true
is_installation (applied (Object.chk x)) = true
is_installation _ = false

abbrev is_request : Event → Bool
is_request (maintenance_requested token) = true
is_request _ = false

abbrev pub count_if : (Event → Bool) → History → ℕ
count_if p [] = 0
count_if p (e ∷ h) = let rest = count_if p h in elim (p e) [ true ↦ suc rest | false ↦ rest ]

abbrev pub applications : History → ℕ
applications = count_if is_installation

abbrev pub requests : History → ℕ
requests = count_if is_request

-- The answer that the maintenance decision takes.
abbrev pub Approved : RolloutGate → Api → History → Type 0
Approved g api h =
    (g.approved ≡ some true) ⊎ ((g.approved ≡ none) × (api.request_maintenance h g.token ≡ true))

module _ (instance_ : Instance) (g : RolloutGate) (key spec : String) (live : Option Installation)
    (api : Api) (h : History) where
  applications-apply_allowed :
      (obj : Installation)
      → applications (apply_allowed instance_ g obj key spec live api h).1 ≡ suc (applications h)
  unfolding apply_allowed
  applications-apply_allowed (Installation.clickhouse chi) = ground arith
  applications-apply_allowed (Installation.keeper chk) = ground arith

-- What the gate does after each decision.
module _ (instance_ : Instance) (g : RolloutGate) (obj : Installation) (key spec : String)
    (live : Option Installation) (api : Api) (h : History) where
  pub gate_live_attributed :
      is_allowed g (is_some live) key spec ≡ true
      → gate_live instance_ g obj key spec live api h
        ≡ apply_allowed instance_ g obj key spec live api h
  unfolding gate_live
  gate_live_attributed e = rw e

  pub gate_live_decided :
      (b : Bool)
      → is_allowed g (is_some live) key spec ≡ false
      → g.approved ≡ some b
      → gate_live instance_ g obj key spec live api h
        ≡ (if b then apply_allowed instance_ g obj key spec live api h else (ok (g, false), h))
  unfolding gate_live
  gate_live_decided true e d = ground arith
  gate_live_decided false e d = ground arith

  pub gate_live_requested :
      is_allowed g (is_some live) key spec ≡ false
      → g.approved ≡ none
      → let b = api.request_maintenance h g.token in
        let g' = record g { approved = some b } in
        let h' = maintenance_requested g.token ∷ h in
        gate_live instance_ g obj key spec live api h
        ≡ (if b then apply_allowed instance_ g' obj key spec live api h' else (ok (g', false), h'))
  unfolding gate_live
  gate_live_requested e d = ground arith

-- Either there is a reason to apply the object without asking, or the maintenance decision, made
-- once for a gate, allows it, and then one CHI or CHK is applied; or neither holds, and then none is
-- applied and the gate reports that the object was held.
pub gate_live_applies :
    (instance_ : Instance) (g : RolloutGate) (obj : Installation) (key spec : String)
    (live : Option Installation) (api : Api) (h : History)
    → let r = gate_live instance_ g obj key spec live api h in
      ((Attributed g (is_some live) key spec ⊎ Approved g api h)
        × (applications r.1 ≡ suc (applications h)))
      ⊎ (¬ (Attributed g (is_some live) key spec ⊎ Approved g api h)
          × (applications r.1 ≡ applications h)
          × (r.0 ≡ ok (record g { approved = some false }, false)))
gate_live_applies instance_ g obj key spec live api h =
    let live_allowed = is_allowed_iff g (is_some live) key spec in
    let attributed = gate_live_attributed instance_ g obj key spec live api h in
    let approved = gate_live_decided instance_ g obj key spec live api h true in
    let denied = gate_live_decided instance_ g obj key spec live api h false in
    let requested = gate_live_requested instance_ g obj key spec live api h in
    let count = applications-apply_allowed instance_ g key spec live api h obj in
    let h' = maintenance_requested g.token ∷ h in
    let count' =
      applications-apply_allowed instance_ (record g { approved = some true }) key spec live api h'
        obj in
    elim (Bool-cases (is_allowed g (is_some live) key spec)) [
      | inl e ↦ inl (inl (live_allowed.0 e), ground arith)
      | inr e ↦ elim (Option-cases g.approved) [
        | inl n ↦ elim (Bool-cases (api.request_maintenance h g.token)) [
          | inl granted ↦ inl (inr (inr (n, granted)), ground arith)
          | inr refused ↦ inr (ground arith, ground arith, ground arith)
        ]
        | inr (b, d) ↦ elim (Bool-cases b) [
          | inl granted ↦ inl (inr (inl (ground arith)), ground arith)
          | inr refused ↦ inr (ground arith, ground arith, ground arith)
        ]
      ]
    ]
