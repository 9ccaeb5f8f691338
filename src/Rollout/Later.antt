-- ===== src/Rollout/Later.antt =====
-- What the gate of a later Sync makes of the record that an earlier one left.
use provider_altinity_clickh.Prelude.{
  suc, ◌≡◌, ◌≢◌, refl, ap, ◌∙◌, sym, inl, inr, String, false, Option, some, List, [], ◌∷◌, arith,
  is_some, eq_iff,
}
use provider_altinity_clickh.Prelude.Text.{◌<>◌}
use provider_altinity_clickh.Prelude.Result.{ok}
use provider_altinity_clickh.Instance.{Instance}
use provider_altinity_clickh.Cluster.{Api, History, found, read, secret_kind, instance_kind}
use provider_altinity_clickh.Cluster.Inversion.{>>=-eq-ok}
use provider_altinity_clickh.Cluster.Secret.{Data, get}
use provider_altinity_clickh.Rollout.{
  Installation, Inputs, Fingerprints, RolloutGate, target_key, recorded_spec, recorded_inputs,
  is_unchanged, apply_allowed, gate_live, rollout_state_name, credentials_secret_name, read_record,
  load_record, inputs_hash, hash_all, release_name, new_rollout_gate, update_record, user_revision,
}
use provider_altinity_clickh.Rollout.Decision.{
  Attributed, is_allowed_iff, applications, requests, gate_live_attributed,
}
use provider_altinity_clickh.Rollout.Record.{IsKey, update_record-Records, load_record_entries}

-- The calls of an apply that is not asked about.
module _ (instance_ : Instance) (g : RolloutGate) (key spec : String) (live : Option Installation)
    (api : Api) (h : History) where
  apply_allowed-counts :
      (obj : Installation)
      → let r = apply_allowed instance_ g obj key spec live api h in
        (applications r.1 ≡ suc (applications h)) × (requests r.1 ≡ requests h)
  unfolding apply_allowed
  apply_allowed-counts (Installation.clickhouse chi) = (ground arith, ground arith)
  apply_allowed-counts (Installation.keeper chk) = (ground arith, ground arith)

  gate_live_unasked :
      (obj : Installation)
      → Attributed g (is_some live) key spec
      → let r = gate_live instance_ g obj key spec live api h in
        (applications r.1 ≡ suc (applications h)) × (requests r.1 ≡ requests h)
  gate_live_unasked obj reason =
      rw
        (gate_live_attributed instance_ g obj key spec live api h
          ((is_allowed_iff g (is_some live) key spec).1 reason))
        (apply_allowed-counts obj)

-- The token of a gate depends on what is rendered, and not on the cluster.
hash_all-result :
    (prints : Fingerprints) (rendered : List Installation) (api api' : Api) (h h' : History)
    → (hash_all prints rendered api h).0 ≡ (hash_all prints rendered api' h').0
unfolding hash_all
hash_all-result prints [] api api' h h' = refl
hash_all-result prints (obj ∷ rendered) api api' h h' =
    let rest = hash_all-result prints rendered api api' h h' in ground arith

module _ (prints : Fingerprints) (instance_ : Instance) (rendered : List Installation) where
  token_of : List String → String
  token_of hashes = "provider-" <> release_name prints prints.release <> "-" <> prints.digest hashes

  -- What a gate is made from.
  new_rollout_gate-parts :
      (api : Api) (h h' : History) (g : RolloutGate)
      → new_rollout_gate prints instance_ rendered api h ≡ (ok g, h')
      → ((read_record instance_ api h).0 ≡ ok g.recorded)
        × ((inputs_hash prints instance_ api (read_record instance_ api h).1).0 ≡ ok g.inputs)
        × ((hashes : List String) × ((hash_all prints rendered api h).0 ≡ ok hashes)
            × (g.token ≡ token_of hashes))
  unfolding new_rollout_gate token_of
  new_rollout_gate-parts api h h' g e =
      let (recorded, e1, r1) = >>=-eq-ok (read_record instance_) _ api h h' g e in
      let h1 = (read_record instance_ api h).1 in
      let (inputs, e2, r2) = >>=-eq-ok (inputs_hash prints instance_) _ api h1 h' g r1 in
      let h2 = (inputs_hash prints instance_ api h1).1 in
      let (hashes, e3, r3) = >>=-eq-ok (hash_all prints rendered) _ api h2 h' g r2 in
      (
        ground arith,
        ground arith,
        (hashes, hash_all-result prints rendered api api h h2 ∙ e3, ground arith),
      )

  same_token :
      (api api' : Api) (h h' i i' : History) (g g' : RolloutGate)
      → new_rollout_gate prints instance_ rendered api h ≡ (ok g, h')
      → new_rollout_gate prints instance_ rendered api' i ≡ (ok g', i')
      → g.token ≡ g'.token
  same_token api api' h h' i i' g g' e e' =
      let (from_record, from_inputs, (hashes, is_hashes, is_token)) =
        new_rollout_gate-parts api h h' g e in
      let (from_record', from_inputs', (hashes', is_hashes', is_token')) =
        new_rollout_gate-parts api' i i' g' e' in
      let both = hash_all-result prints rendered api api' h i in
      let same : hashes ≡ hashes' = ground arith in is_token ∙ ap token_of same ∙ sym is_token'

read_record-found :
    (instance_ : Instance) (api : Api) (h : History) (data_ : Data)
    → api.read_secret h (rollout_state_name instance_.name) ≡ found data_
    → read_record instance_ api h
      ≡ (ok (load_record data_), read secret_kind (rollout_state_name instance_.name) ∷ h)
unfolding read_record
read_record-found instance_ api h data_ e = rw e refl

-- After a Sync recorded a changed rendering of the CHI or the CHK as applied, a gate of a later Sync
-- that renders the same and reads that record applies any of the two objects, whatever is live and
-- recorded of it, exactly once and without a maintenance request.
pub change_under_way-unasked :
    (prints : Fingerprints) (instance_ : Instance) (rendered : List Installation) (api api' : Api)
    (h h' i i' : History) (g g' : RolloutGate) (key spec key' spec' : String) (obj : Installation)
    (live : Option Installation) (later : Api) (k : History)
    → IsKey key
    → new_rollout_gate prints instance_ rendered api h ≡ (ok g, h')
    → is_unchanged g key spec ≡ false
    → api'.read_secret i (rollout_state_name instance_.name)
      ≡ found (update_record g key spec).recorded
    → new_rollout_gate prints instance_ rendered api' i ≡ (ok g', i')
    → let r = gate_live instance_ g' obj key' spec' live later k in
      (applications r.1 ≡ suc (applications k)) × (requests r.1 ≡ requests k)
change_under_way-unasked prints instance_ rendered api api' h h' i i' g g' key spec key' spec' obj
      live later k is_key first changed was second =
    let saved = (update_record g key spec).recorded in
    let parts = new_rollout_gate-parts prints instance_ rendered api' i i' g' second in
    let loaded = read_record-found instance_ api' i saved was in
    let is_loaded : g'.recorded ≡ load_record saved = ground arith in
    let kept = (load_record_entries saved key is_key).1 in
    let tokens = same_token prints instance_ rendered api api' h h' i i' g g' first second in
    let target : get target_key saved ≡ g.token = elim (update_record-Records g key spec is_key).2 [
      | inl same ↦ let changed_ = eq_iff (recorded_spec g key) spec in ground arith
      | inr is_token ↦ is_token
    ] in
    gate_live_unasked instance_ g' key' spec' live later k obj
      (inr (inr (inr (inr (ap (get target_key) is_loaded ∙ kept ∙ target ∙ tokens)))))

-- The inputs that a gate fingerprints.
abbrev pub inputs_of : Instance → Data → Inputs
inputs_of stored data_ = record {
  version = stored.version;
  topology = stored.topology;
  engine = stored.engine;
  keeper_component = stored.keeper;
  credentials = user_revision (some data_);
}

module _ (prints : Fingerprints) (instance_ : Instance) (api : Api) (stored : Instance)
    (data_ : Data) (is_stored : (g : History) → api.read_instance g instance_.name ≡ found stored)
    (is_data : (g : History)
      → api.read_secret g (credentials_secret_name instance_.name) ≡ found data_) where
  inputs_hash-found :
      (h : History)
      → (inputs_hash prints instance_ api h).0 ≡ prints.inputs_hash (inputs_of stored data_)
  unfolding inputs_hash
  inputs_hash-found h = rw (is_stored h, is_data (read instance_kind instance_.name ∷ h)) refl

-- A change by the user is not held: where the fingerprint of the stored version, topology, engine,
-- Keeper and revision of the credentials is not that of the inputs that an object was recorded with,
-- the gate applies the object exactly once and without a maintenance request, whatever is live.
pub user_change-unasked :
    (prints : Fingerprints) (instance_ : Instance) (rendered : List Installation) (api : Api)
    (h h' : History) (g : RolloutGate) (stored : Instance) (data_ : Data) (before : Inputs)
    (key spec : String) (obj : Installation) (live : Option Installation) (later : Api)
    (k : History)
    → ((i : History) → api.read_instance i instance_.name ≡ found stored)
    → ((i : History) → api.read_secret i (credentials_secret_name instance_.name) ≡ found data_)
    → new_rollout_gate prints instance_ rendered api h ≡ (ok g, h')
    → prints.inputs_hash before ≡ ok (recorded_inputs g key)
    → recorded_inputs g key ≢ ""
    → prints.inputs_hash (inputs_of stored data_) ≢ prints.inputs_hash before
    → let r = gate_live instance_ g obj key spec live later k in
      (applications r.1 ≡ suc (applications k)) × (requests r.1 ≡ requests k)
user_change-unasked prints instance_ rendered api h h' g stored data_ before key spec obj live later
      k is_stored is_data made was recorded changed =
    let (from_record, from_inputs, from_hashes) =
      new_rollout_gate-parts prints instance_ rendered api h h' g made in
    let now =
      sym (
        inputs_hash-found prints instance_ api stored data_ is_stored is_data
          (read_record instance_ api h).1)
      ∙ from_inputs in
    gate_live_unasked instance_ g key spec live later k obj (
      inr (inr (inr (inl (recorded, λ same. changed (now ∙ ap (λ s. ok s) (sym same) ∙ sym was))))))
