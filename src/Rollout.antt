-- ===== src/Rollout.antt =====
-- internal/provider/rollout.go: the gate that decides whether a rendered ClickHouseInstallation or
-- ClickHouseKeeperInstallation may be applied now. The hashes are SHA-256 digests of JSON: they are
-- the parameter `Fingerprints`.
pub mod Decision
pub mod Apply
pub mod Record
pub mod Later
use Prim.Native.String.{slice}
use provider_altinity_clickh.Prelude.{
  ℕ, String, Bool, true, false, not, ◌&&◌, ◌||◌, Option, none, some, List, [], ◌∷◌, if◌then◌else◌,
  any, is_some,
}
use provider_altinity_clickh.Prelude.Text.{str_eq, is_empty, has_suffix, ◌<>◌}
use provider_altinity_clickh.Prelude.Result.{Error, wrapped, Result, ok, err}
use provider_altinity_clickh.Common.{
  rollout_state_suffix, credentials_secret_suffix, credentials_key_user_revision,
}
use provider_altinity_clickh.Operator.{Chi, Chk}
use provider_altinity_clickh.Instance.{Instance, ComponentSpec}
use provider_altinity_clickh.Cluster.{
  Object, secret, Read, found, missing, failed, Exec, pure, lift, raise, ◌>>=◌, ◌>>◌, wrap, get_chi,
  get_chk, get_secret, get_instance, get_result, wrap_error, optional_result, apply,
  request_maintenance,
}
use provider_altinity_clickh.Cluster
use provider_altinity_clickh.Cluster.Secret.{Data, get, put}

-- The two objects that the gate is asked about.
pub data Installation : Type 0 where
  clickhouse : Chi → Installation
  keeper : Chk → Installation

-- The Instance fields that inputsHash fingerprints.
pub record Inputs : Type 0 where
  pub version : String
  pub topology : String
  pub engine : Option ComponentSpec
  pub keeper_component : Option ComponentSpec
  pub credentials : String

-- `spec_hash` is hashJSON of an object's spec, `inputs_hash` that of the inputs, `digest` the first
-- eight hex digits of the SHA-256 over some hashes, and `release` the provider's release, if known.
pub record Fingerprints : Type 0 where
  pub spec_hash : Installation → Result String
  pub inputs_hash : Inputs → Result String
  pub digest : List String → String
  pub release : Option String

pub record RolloutGate : Type 0 where
  pub recorded : Data
  pub inputs : String
  pub token : String
  pub approved : Option Bool

abbrev pub spec_suffix : String
spec_suffix = ".spec"

abbrev pub inputs_suffix : String
inputs_suffix = ".inputs-v3"

abbrev pub target_key : String
target_key = "rollout.target"

abbrev pub task_id_prefix : String
task_id_prefix = "openeverest-"

abbrev pub rollout_state_name : String → String
rollout_state_name name = name <> rollout_state_suffix

abbrev pub credentials_secret_name : String → String
credentials_secret_name name = name <> credentials_secret_suffix

-- The keys of this format of the record; inputs of an earlier format are left out.
unfoldable pub is_record_key : String → Bool
unfolding has_suffix
is_record_key k = has_suffix k spec_suffix || has_suffix k inputs_suffix || str_eq k target_key

unfoldable pub load_record : Data → Data
load_record [] = []
load_record ((k, v) ∷ data_) =
    let rest = load_record data_ in if is_record_key k then (k, v) ∷ rest else rest

unfoldable pub read_record : Instance → Exec Data
unfolding load_record
read_record instance_ = do
  state ← get_secret (rollout_state_name instance_.name)
  elim state [
    | found data_ ↦ pure (load_record data_)
    | missing ↦ pure []
    | failed e ↦ raise (wrapped "read rollout state" e)
  ]

-- userCredentialsRevision of a Secret that may be missing
unfoldable pub user_revision : Option Data → String
user_revision none = ""
user_revision (some data_) = get credentials_key_user_revision data_

module _ (prints : Fingerprints) where
  unfoldable pub inputs_hash : Instance → Exec String
  unfolding user_revision
  inputs_hash instance_ = do
    answer ← get_instance instance_.name
    stored ← lift (wrap_error "read stored Instance" (get_result answer))
    secret_answer ← get_secret (credentials_secret_name instance_.name)
    credentials ← lift (optional_result (credentials_secret_name instance_.name) secret_answer)
    lift (
        prints.inputs_hash (record {
          version = stored.version;
          topology = stored.topology;
          engine = stored.engine;
          keeper_component = stored.keeper;
          credentials = user_revision credentials;
        }))

  unfoldable pub hash_all : List Installation → Exec (List String)
  hash_all [] = pure []
  hash_all (obj ∷ rendered) = do
    h ← lift (prints.spec_hash obj)
    hs ← hash_all rendered
    pure (h ∷ hs)

  unfoldable pub release_name : Option String → String
  release_name none = "change"
  release_name (some version) = if is_empty version then "change" else version

  unfoldable pub new_rollout_gate : Instance → List Installation → Exec RolloutGate
  unfolding read_record inputs_hash hash_all release_name
  new_rollout_gate instance_ rendered = do
    recorded ← read_record instance_
    inputs ← inputs_hash instance_
    hashes ← hash_all rendered
    pure (record {
      recorded = recorded;
      inputs = inputs;
      token = "provider-" <> release_name prints.release <> "-" <> prints.digest hashes;
      approved = none;
    })

-- taskID and stampTaskID
unfoldable pub task_id : Installation → Option String
task_id (clickhouse chi) = chi.spec.task_id
task_id (keeper chk) = chk.spec.task_id

abbrev pub task_name : String → String
task_name spec = task_id_prefix <> slice spec 0 16

unfoldable pub stamp_task_id : Installation → String → Installation
stamp_task_id (clickhouse chi) spec =
    clickhouse (record chi { spec = record (chi.spec) { task_id = some (task_name spec) } })
stamp_task_id (keeper chk) spec =
    keeper (record chk { spec = record (chk.spec) { task_id = some (task_name spec) } })

-- rolledOut: an object applied before task IDs were stamped has none.
unfoldable pub rolled_out : Option String → List String → Bool
rolled_out none completed = true
rolled_out (some id) completed = any (λ done. str_eq done id) completed

abbrev pub to_object : Installation → Object
to_object (clickhouse chi) = Object.chi chi
to_object (keeper chk) = Object.chk chk

-- c.Exists, which also reads the live object.
unfoldable pub existing : {A : Type 0} → (A → Installation) → Read A → Result (Option Installation)
existing f (found a) = ok (some (f a))
existing f missing = ok none
existing f (failed e) = err (wrapped "check" e)

unfoldable pub read_live : Installation → Exec (Option Installation)
unfolding existing
read_live (clickhouse chi) = do answer ← get_chi chi.name; lift (existing clickhouse answer)
read_live (keeper chk) = do answer ← get_chk chk.name; lift (existing keeper answer)

-- What `apply` tests, for the object recorded under `key` with the fingerprint `spec`.
abbrev pub recorded_spec : RolloutGate → String → String
recorded_spec g key = get (key <> spec_suffix) g.recorded

abbrev pub recorded_inputs : RolloutGate → String → String
recorded_inputs g key = get (key <> inputs_suffix) g.recorded

abbrev pub is_unchanged : RolloutGate → String → String → Bool
is_unchanged g key spec = str_eq (recorded_spec g key) spec

unfoldable pub is_allowed : RolloutGate → Bool → String → String → Bool
is_allowed g exists key spec =
    not exists
    || is_empty (recorded_spec g key)
    || is_unchanged g key spec
    || (not (is_empty (recorded_inputs g key)) && not (str_eq (recorded_inputs g key) g.inputs))
    || str_eq (get target_key g.recorded) g.token

-- The maintenance decision is asked for once and then kept in the gate.
unfoldable pub maintenance_decision : RolloutGate → Exec (RolloutGate × Bool)
maintenance_decision g = elim g.approved [
  | some approved ↦ pure (g, approved)
  | none ↦ do
    approved ← request_maintenance g.token
    pure (record g { approved = some approved }, approved)
]

unfoldable pub decide : RolloutGate → Bool → Exec (RolloutGate × Bool)
unfolding maintenance_decision
decide g true = pure (g, true)
decide g false = maintenance_decision g

-- The task ID names the rendering with a change, for a new object, and where one was stamped.
unfoldable pub is_stamped : RolloutGate → String → String → Option Installation → Bool
unfolding task_id
is_stamped g key spec none = true
is_stamped g key spec (some live) =
    (not (is_unchanged g key spec) && not (is_empty (recorded_spec g key)))
    || is_some (task_id live)

unfoldable pub update_record : RolloutGate → String → String → RolloutGate
update_record g key spec =
    let data_ = put (key <> inputs_suffix) g.inputs (put (key <> spec_suffix) spec g.recorded) in
    record g { recorded = if is_unchanged g key spec then data_ else put target_key g.token data_ }

-- g.save: the record is applied as the data of the state Secret.
unfoldable pub save : Instance → RolloutGate → Exec (Unit {0})
save instance_ g =
    wrap "record rollout state" (apply (secret (rollout_state_name instance_.name) g.recorded))

unfoldable pub record_applied : Instance → RolloutGate → String → String → Exec (RolloutGate × Bool)
unfolding save update_record
record_applied instance_ g key spec =
    if is_unchanged g key spec && str_eq (recorded_inputs g key) g.inputs
    then pure (g, true)
    else do save instance_ (update_record g key spec); pure (update_record g key spec, true)

unfoldable pub apply_allowed :
    Instance
    → RolloutGate
    → Installation
    → String
    → String
    → Option Installation
    → Exec (RolloutGate × Bool)
unfolding record_applied is_stamped stamp_task_id
apply_allowed instance_ g obj key spec live = do
  apply (to_object (if is_stamped g key spec live then stamp_task_id obj spec else obj))
  record_applied instance_ g key spec

unfoldable pub gate_live :
    Instance
    → RolloutGate
    → Installation
    → String
    → String
    → Option Installation
    → Exec (RolloutGate × Bool)
unfolding decide
gate_live instance_ g obj key spec live = do
  decision ← decide g (is_allowed g (is_some live) key spec)
  if decision.1
      then apply_allowed instance_ decision.0 obj key spec live
      else pure (decision.0, false)

-- rolloutGate.apply: the gate after it, and whether the object was applied.
unfoldable pub gate_apply :
    Fingerprints → Instance → RolloutGate → Installation → String → Exec (RolloutGate × Bool)
unfolding read_live gate_live
gate_apply prints instance_ g obj key = do
  spec ← lift (prints.spec_hash obj)
  live ← read_live obj
  gate_live instance_ g obj key spec live
