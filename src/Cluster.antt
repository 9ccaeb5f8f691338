-- ===== src/Cluster.antt =====
-- The Kubernetes API as the provider uses it through controller.Context. The server is not part
-- of the repository: an `Api` answers each call from the history of the calls before it, and the
-- theorems range over every `Api`. A handler is an action of `Exec`: it returns its result or error
-- with the history that it leaves.
pub mod Secret
pub mod Objects
pub mod Inversion
pub mod Effects
pub mod Bounds
pub mod Success
use provider_altinity_clickh.Prelude.{
  ℕ, String, Bool, true, false, Option, none, some, List, [], ◌∷◌,
}
use provider_altinity_clickh.Prelude.Result.{Error, not_found, wrapped, Result, ok, err}
use provider_altinity_clickh.Operator.{Chi, Chk}
use provider_altinity_clickh.Instance.{Instance, InstanceStatus}
use Secret.{Data}
use Objects.{IssuerConfig, Certificate, NetworkPolicy, PodMonitor}

pub data Kind : Type 0 where
  chi_kind chk_kind secret_kind service_kind instance_kind : Kind
  network_policy_kind pod_monitor_kind issuer_kind certificate_kind pvc_kind : Kind
  storage_class_kind : Kind

-- The Service of the whole installation, as the operator keeps it.
pub record Ingress : Type 0 where
  pub hostname : String
  pub ip : String

pub record NodePort : Type 0 where
  pub port : ℕ
  pub node_port : ℕ

pub record LiveService : Type 0 where
  pub service_type : String
  pub ingress : List Ingress
  pub ports : List NodePort

-- A volume claim or a pod: its name, its labels, and what the provider reads of its spec.
pub record Pvc : Type 0 where
  pub name : String
  pub labels : List (String × String)
  pub storage_class : Option String

pub record Pod : Type 0 where
  pub secret_volumes : List String

pub data Object : Type 0 where
  chi : Chi → Object
  chk : Chk → Object
  secret : String → Data → Object
  issuer : String → IssuerConfig → Object
  certificate : Certificate → Object
  network_policy : NetworkPolicy → Object
  pod_monitor : PodMonitor → Object

pub data Event : Type 0 where
  read : Kind → String → Event
  listed : String → String → Event
  applied : Object → Event
  deleted : Kind → String → Event
  patched : Kind → String → List ℕ → String → Event
  labelled : String → String → String → Event
  maintenance_requested : String → Event
  status_updated : InstanceStatus → Event

abbrev pub History : Type 0
History = List Event

pub data Read (A : Type 0) : Type 0 where
  found : A → Read A
  missing : Read A
  failed : Error → Read A

pub record Api : Type 0 where
  pub read_chi : History → String → Read Chi
  pub read_chk : History → String → Read Chk
  pub read_secret : History → String → Read Data
  pub read_service : History → String → Read LiveService
  pub read_instance : History → String → Read Instance
  pub read_storage_class : History → String → Read (Option Bool)
  pub read_other : History → Kind → String → Read (Unit {0})
  pub list_pvcs : History → String → String → Result (List Pvc)
  pub list_pods : History → String → String → Result (List Pod)
  pub apply : History → Object → Result (Unit {0})
  pub delete : History → Kind → String → Result (Unit {0})
  pub patch : History → Kind → String → List ℕ → String → Result (Unit {0})
  pub label : History → String → String → String → Result (Unit {0})
  pub request_maintenance : History → String → Bool

abbrev pub Exec {ℓ} : Type ℓ → Type ℓ
Exec A = Api → History → Result A × History

abbrev pub pure {ℓ} : {A : Type ℓ} → A → Exec A
pure a api h = (ok a, h)

abbrev pub lift {ℓ} : {A : Type ℓ} → Result A → Exec A
lift r api h = (r, h)

abbrev pub raise {ℓ} : {A : Type ℓ} → Error → Exec A
raise e api h = (err e, h)

abbrev pub continue {ℓ} :
    {A B : Type ℓ} → Result A → (A → Exec B) → Api → History → Result B × History
continue (ok a) f api h = f a api h
continue (err e) f api h = (err e, h)

infixl 5 ◌>>=◌ ◌>>◌
abbrev pub ◌>>=◌ {ℓ} : {A B : Type ℓ} → Exec A → (A → Exec B) → Exec B
◌>>=◌ m f api h = let (r, h') = m api h in continue r f api h'

abbrev pub ◌>>◌ {ℓ} : {A B : Type ℓ} → Exec A → Exec B → Exec B
m >> n = m >>= λ _. n

-- `fmt.Errorf(message + ": %w", err)` on the error of a call
abbrev pub wrap_error {ℓ} : {A : Type ℓ} → String → Result A → Result A
wrap_error message (ok a) = ok a
wrap_error message (err e) = err (wrapped message e)

abbrev pub wrap {ℓ} : {A : Type ℓ} → String → Exec A → Exec A
wrap message m api h = let (r, h') = m api h in (wrap_error message r, h')

abbrev pub to_get {ℓ} : {A : Type ℓ} → Result A → Exec (Result A)
to_get r api h = (ok r, h)

-- A call whose error the caller looks at.
abbrev pub attempt {ℓ} : {A : Type ℓ} → Exec A → Exec (Result A)
attempt m api h = let (r, h') = m api h in (ok r, h')

-- c.Get: a missing object is the NotFound error.
abbrev pub get_result : {A : Type 0} → Read A → Result A
get_result (found a) = ok a
get_result missing = err not_found
get_result (failed e) = err e

-- getOptional of internal/provider/status.go
abbrev pub optional_result : {A : Type 0} → String → Read A → Result (Option A)
optional_result name (found a) = ok (some a)
optional_result name missing = ok none
optional_result name (failed e) = err (wrapped name e)

abbrev pub get_chi : String → Exec (Read Chi)
get_chi name api h = (ok (api.read_chi h name), read chi_kind name ∷ h)

abbrev pub get_chk : String → Exec (Read Chk)
get_chk name api h = (ok (api.read_chk h name), read chk_kind name ∷ h)

abbrev pub get_secret : String → Exec (Read Data)
get_secret name api h = (ok (api.read_secret h name), read secret_kind name ∷ h)

abbrev pub get_service : String → Exec (Read LiveService)
get_service name api h = (ok (api.read_service h name), read service_kind name ∷ h)

abbrev pub get_instance : String → Exec (Read Instance)
get_instance name api h = (ok (api.read_instance h name), read instance_kind name ∷ h)

-- AllowVolumeExpansion of a StorageClass
abbrev pub get_storage_class : String → Exec (Read (Option Bool))
get_storage_class name api h =
    (ok (api.read_storage_class h name), read storage_class_kind name ∷ h)

abbrev pub get_other : Kind → String → Exec (Read (Unit {0}))
get_other kind name api h = (ok (api.read_other h kind name), read kind name ∷ h)

abbrev pub list_pvcs : String → String → Exec (List Pvc)
list_pvcs key value api h = (api.list_pvcs h key value, listed key value ∷ h)

abbrev pub list_pods : String → String → Exec (List Pod)
list_pods key value api h = (api.list_pods h key value, listed key value ∷ h)

-- Server-side apply, delete (which ignores a missing object) and the two patches.
abbrev pub apply : Object → Exec (Unit {0})
apply object api h = (api.apply h object, applied object ∷ h)

abbrev pub delete : Kind → String → Exec (Unit {0})
delete kind name api h = (api.delete h kind name, deleted kind name ∷ h)

abbrev pub patch : Kind → String → List ℕ → String → Exec (Unit {0})
patch kind name indices policy api h =
    (api.patch h kind name indices policy, patched kind name indices policy ∷ h)

abbrev pub label : String → String → String → Exec (Unit {0})
label name key value api h = (api.label h name key value, labelled name key value ∷ h)

abbrev pub request_maintenance : String → Exec Bool
request_maintenance token api h =
    (ok (api.request_maintenance h token), maintenance_requested token ∷ h)

-- The update of the Instance's status, whose error the provider drops.
abbrev pub update_status : InstanceStatus → Exec (Unit {0})
update_status status api h = (ok tt, status_updated status ∷ h)
