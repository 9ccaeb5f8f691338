-- ===== src/Validation/Volumes.antt =====
-- internal/provider/validate.go, storage: a volume may neither shrink nor move to another
-- StorageClass, and may grow only where every StorageClass in use allows it. The messages leave out
-- the quantities.
pub mod Growth
use provider_altinity_clickh.Prelude.{
  ℕ, String, Bool, true, false, not, Option, none, some, List, [], ◌∷◌, if◌then◌else◌, ltb, any,
}
use provider_altinity_clickh.Prelude.Text.{str_eq, ◌<>◌}
use provider_altinity_clickh.Prelude.Result.{failure, wrapped, Result, ok, err, reject_if}
use provider_altinity_clickh.Operator.{VolumeClaimTemplate}
use provider_altinity_clickh.Cluster.{
  Pvc, Read, found, missing, failed, Exec, pure, lift, ◌>>=◌, ◌>>◌, wrap, list_pvcs,
  get_storage_class,
}

unfoldable pub equal_storage_class : Option String → Option String → Bool
equal_storage_class none none = true
equal_storage_class none (some b) = false
equal_storage_class (some a) none = false
equal_storage_class (some a) (some b) = str_eq a b

describe_storage_class : Option String → String
describe_storage_class none = "the cluster default"
describe_storage_class (some class) = "\"" <> class <> "\""

-- AllowVolumeExpansion may be unset; a StorageClass that is gone is passed over.
unfoldable pub expandable : String → String → Read (Option Bool) → Result (Unit {0})
expandable component name (found none) = err (
    failure (
      component <> " storage cannot grow: the " <> name
      <> " StorageClass does not allow volume expansion"))
expandable component name (found (some allowed)) = reject_if (not allowed) (
    failure (
      component <> " storage cannot grow: the " <> name
      <> " StorageClass does not allow volume expansion"))
expandable component name missing = ok tt
expandable component name (failed e) = err (wrapped ("read StorageClass " <> name) e)

unfoldable pub check_class : String → String → Exec (Unit {0})
unfolding expandable
check_class component name = do
  answer ← get_storage_class name
  lift (expandable component name answer)

-- One volume claim, and the rest with the names checked so far.
unfoldable pub check_claim :
    String → List String → Option String → (List String → Exec (Unit {0})) → Exec (Unit {0})
unfolding check_class
check_claim component checked none rest = rest checked
check_claim component checked (some name) rest =
    if any (str_eq name) checked
    then rest checked
    else (check_class component name >> rest (name ∷ checked))

unfoldable pub check_claims : String → List String → List Pvc → Exec (Unit {0})
unfolding check_claim
check_claims component checked [] = pure tt
check_claims component checked (pvc ∷ pvcs) =
    check_claim component checked pvc.storage_class (λ names. check_claims component names pvcs)

unfoldable pub validate_expandable : String → String → String → Exec (Unit {0})
unfolding check_claims
validate_expandable component key value = do
  pvcs ← wrap ("list " <> component <> " volumes") (list_pvcs key value)
  check_claims component [] pvcs

-- The size that the current template requests, if it does.
unfoldable pub validate_size : String → String → String → Option ℕ → ℕ → Exec (Unit {0})
validate_size component key value none size = pure tt
validate_size component key value (some current) size =
    if ltb size current
    then lift (err (failure (component <> " storage cannot shrink")))
    else if ltb current size
    then validate_expandable component key value
    else pure tt

unfoldable pub validate_class : String → Option String → Option String → Result (Unit {0})
unfolding describe_storage_class
validate_class component current class = reject_if (not (equal_storage_class current class)) (
    failure (
      component
      <> " storageClass cannot change from "
      <> describe_storage_class current
      <> " to "
      <> describe_storage_class class))

-- The tests on the current volumes of a component, selected by a label.
unfoldable pub validate_volumes :
    String → String → String → VolumeClaimTemplate → ℕ × Option String → Exec (Unit {0})
unfolding validate_size validate_class
validate_volumes component key value current (size, class) = do
  validate_size component key value current.storage_request size
  lift (validate_class component current.storage_class class)
