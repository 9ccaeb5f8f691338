-- ===== src/Sync/Reporting.antt =====
-- What Sync publishes of the Instance's status, and what it returns.
use mathlib.Core.Path.{subst}
use provider_altinity_clickh.Prelude.{
  ℕ, ◌≡◌, refl, ap, sym, ◌∙◌, ◌⊎◌, inl, inr, String, Bool, true, false, not, ◌||◌, List, [], ◌∷◌,
  arith, eq_iff, if◌then◌else◌, Bool-cases,
}
use provider_altinity_clickh.Prelude.Text.{str_eq}
use provider_altinity_clickh.Prelude.Result.{Error, Result, ok, err, is_wait_error}
use provider_altinity_clickh.Instance.{Instance, InstanceStatus, Condition}
use provider_altinity_clickh.Cluster.{Api, History, status_updated, lift, continue, ◌>>◌}
use provider_altinity_clickh.Runtime.{Runtime}
use provider_altinity_clickh.Status.{Status, status_of}
use provider_altinity_clickh.Sync.{
  Surroundings, same_list, with_condition, set_pending_maintenance, desired_status, report_status,
  report_outcome, publish, sync_resources, sync, awaiting_approval, nothing_pending,
}

module _ (env : Surroundings) (instance_ : Instance) (api : Api) where
  -- The history after a status was reported.
  abbrev pub published : Status → History → History
  published st h =
      let desired =
        desired_status env instance_ st (env.maintenance_requested h) (env.pending_maintenance h) in
      if desired.1 then status_updated desired.0 ∷ h else h

  -- What follows the reading of the status, from what it answers.
  abbrev pub Reports : Result Status × History → History → Type 0
  Reports answer h =
      ((e : Error) × (answer.0 ≡ err e) × (h ≡ answer.1))
      ⊎ ((st : Status) × (answer.0 ≡ ok st) × (h ≡ published st answer.1))

  report_status-published :
      (st : Status) (h : History) → (report_status env instance_ st api h).1 ≡ published st h
  unfolding report_status
  report_status-published st h =
      let desired =
        desired_status env instance_ st (env.maintenance_requested h) (env.pending_maintenance h) in
      elim (Bool-cases desired.1) [ inl e ↦ rw e refl | inr e ↦ rw e refl ]

  reports :
      (answer : Result Status) (h : History)
      → Reports (answer, h) (report_outcome env instance_ answer api h).1
  unfolding report_outcome
  reports (ok st) h = inr (st, refl, report_status-published st h)
  reports (err e) h = inl (e, refl, refl)

  -- What Sync leaves, from how its resources were left.
  abbrev pub Publishes : Result (Unit {0}) × History → History → Type 0
  Publishes synced h =
      ((synced.0 ≡ ok tt) × (h ≡ synced.1))
      ⊎ ((e : Error) × (synced.0 ≡ err e) × (is_wait_error e ≡ false) × (h ≡ synced.1))
      ⊎ ((e : Error) × (synced.0 ≡ err e)
          × (is_wait_error e ≡ true)
          × Reports (status_of env.urls instance_ api synced.1) h)

  publishes :
      (outcome : Result (Unit {0})) (h : History)
      → Publishes (outcome, h) (publish env instance_ outcome api h).1
  unfolding publish
  publishes (ok tt) h = inl (refl, refl)
  publishes (err e) h = elim (Bool-cases (is_wait_error e)) [
    | inl waits ↦ inr (
        inr (
          e,
          refl,
          waits,
          rw waits (
              reports (status_of env.urls instance_ api h).0
                (status_of env.urls instance_ api h).1),
        ))
    | inr fails ↦ inr (inl (e, refl, fails, rw fails refl))
  ]

  publish-ok :
      (outcome : Result (Unit {0})) (h : History) → (publish env instance_ outcome api h).0 ≡ ok tt
  unfolding publish report_outcome report_status
  publish-ok (ok tt) h = refl
  publish-ok (err e) h = ground arith

  then_returns :
      (outcome : Result (Unit {0})) (h : History)
      → (publish env instance_ outcome >> lift outcome) api h
        ≡ (outcome, (publish env instance_ outcome api h).1)
  then_returns outcome h =
      ap (λ r. continue r (λ done. lift outcome) api (publish env instance_ outcome api h).1)
        (publish-ok outcome h)

-- Sync returns what its resources return, whatever publishing meets. Where they are done, or fail
-- with an error that is no wait, nothing more is called; where they wait, the status is read, and
-- published if that succeeds and the status changed.
pub sync-Publishes :
    (env : Surroundings) (instance_ : Instance) (api : Api) (h : History)
    → let synced = sync_resources env instance_ api h in
      let r = sync env instance_ api h in (r.0 ≡ synced.0) × Publishes env instance_ api synced r.1
unfolding sync
sync-Publishes env instance_ api h =
    let synced = sync_resources env instance_ api h in
    let returns = then_returns env instance_ api synced.0 synced.1 in
    (
      ap (λ x. x.0) returns,
      subst (Publishes env instance_ api synced) (sym (ap (λ x. x.1) returns))
          (publishes env instance_ api synced.0 synced.1),
    )

-- meta.SetStatusCondition reports no change only where it changed nothing.
pub record ReportsChanges (rt : Runtime) : Type 0 where
  pub unchanged :
      (conditions : List Condition) (condition : Condition)
      → (rt.set_status_condition conditions condition).1 ≡ false
      → (rt.set_status_condition conditions condition).0 ≡ conditions

same_list-eq : (ss ts : List String) → same_list ss ts ≡ true → ss ≡ ts
same_list-eq [] [] e = refl
same_list-eq [] (t ∷ ts) e = ground arith
same_list-eq (s ∷ ss) [] e = ground arith
same_list-eq (s ∷ ss) (t ∷ ts) e = let rest = same_list-eq ss ts in ground (arith, eq_iff s t)

-- Where setting the pending maintenance reports no change, it made none.
with_condition-unchanged :
    (rt : Runtime) (condition : Condition) (changed : Bool) (status : InstanceStatus)
    → ReportsChanges rt
    → (with_condition rt condition changed status).1 ≡ false
    → ((with_condition rt condition changed status).0 ≡ status) × (changed ≡ false)
unfolding with_condition
with_condition-unchanged rt condition changed status c e = (
  ap (λ conditions. record status { conditions = conditions })
      (c.unchanged status.conditions condition (ground arith)),
  ground arith,
)

keeps_pending :
    (status : InstanceStatus) (pending : List String)
    → not (same_list status.pending_maintenance pending) ≡ false
    → record status { pending_maintenance = pending } ≡ status
keeps_pending status pending e =
    ap (λ p. record status { pending_maintenance = p })
      (sym (same_list-eq status.pending_maintenance pending (ground arith)))

keeps_report :
    (status : InstanceStatus) (phase message : String)
    → (not (str_eq status.phase phase) || not (str_eq status.message message)) ≡ false
    → record status { phase = phase; message = message } ≡ status
keeps_report status phase message e =
    let phases = eq_iff status.phase phase in
    let messages = eq_iff status.message message in
    ap (λ m. record status { phase = phase; message = m }) (ground (arith, messages))
    ∙ ap (λ p. record status { phase = p }) (ground (arith, phases))

set_pending_maintenance-unchanged :
    (rt : Runtime) (generation : ℕ) (pending : List String) (status : InstanceStatus)
    → ReportsChanges rt
    → (set_pending_maintenance rt generation pending status).1 ≡ false
    → (set_pending_maintenance rt generation pending status).0 ≡ status
unfolding set_pending_maintenance
set_pending_maintenance-unchanged rt generation [] status c e =
    let changed = not (same_list status.pending_maintenance []) in
    let cleared = record status { pending_maintenance = [] } in
    let condition = nothing_pending rt generation in
    elim (Bool-cases (rt.has_condition status.conditions rt.condition_maintenance_pending)) [
      | inl present ↦
          let (same, none_) =
            with_condition-unchanged rt condition changed cleared c (ground arith) in
          rw present (same ∙ keeps_pending status [] none_)
      | inr absent ↦ rw absent (keeps_pending status [] (ground arith))
    ]
set_pending_maintenance-unchanged rt generation (action ∷ pending) status c e =
    let (same, none_) =
      with_condition-unchanged rt (awaiting_approval rt generation (action ∷ pending))
        (not (same_list status.pending_maintenance (action ∷ pending)))
        (record status { pending_maintenance = action ∷ pending }) c e in
    same ∙ keeps_pending status (action ∷ pending) none_

-- Where meta.SetStatusCondition reports every change it makes, no change of the status is lost: a
-- status that Sync does not publish is the one that the Instance has.
pub desired_status-unchanged :
    (env : Surroundings) (instance_ : Instance) (st : Status) (requested : Bool)
    (pending : List String)
    → ReportsChanges env.runtime
    → (desired_status env instance_ st requested pending).1 ≡ false
    → (desired_status env instance_ st requested pending).0 ≡ instance_.status
unfolding desired_status
desired_status-unchanged env instance_ st true pending c e =
    let (phase, message) = env.to_v2alpha1 st in
    set_pending_maintenance-unchanged env.runtime instance_.generation pending
      (record (instance_.status) { phase = phase; message = message }) c (ground arith)
    ∙ keeps_report instance_.status phase message (ground arith)
desired_status-unchanged env instance_ st false pending c e =
    keeps_report instance_.status (env.to_v2alpha1 st).0 (env.to_v2alpha1 st).1 e
