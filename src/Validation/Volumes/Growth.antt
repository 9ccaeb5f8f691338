-- ===== src/Validation/Volumes/Growth.antt =====
-- Which volumes may grow: the loop over the claims, which reads each StorageClass once, against the
-- test of every claim.
use mathlib.Core.Path.{subst}
use provider_altinity_clickh.Prelude.{
  ℕ, ◌<◌, ltb, ltb→lt, ◌≡◌, refl, sym, ap, ◌↔◌, ◌⊎◌, inl, inr, String, Bool, true, false, Option,
  none, some, List, [], ◌∷◌, All, any, arith, eq_iff, Bool-cases,
}
use provider_altinity_clickh.Prelude.Text.{str_eq}
use provider_altinity_clickh.Prelude.Result.{Result, ok, err}
use provider_altinity_clickh.Operator.{VolumeClaimTemplate}
use provider_altinity_clickh.Cluster.{
  Api, History, Exec, continue, Read, found, missing, failed, Pvc, read, listed, storage_class_kind,
  lift, ◌>>◌,
}
use provider_altinity_clickh.Validation.Volumes.{
  expandable, check_class, check_claim, check_claims, validate_expandable, validate_size,
  validate_class, validate_volumes, equal_storage_class,
}

-- The StorageClass allows expansion, or is gone.
abbrev pub Allowed : Read (Option Bool) → Type 0
Allowed answer = (answer ≡ found (some true)) ⊎ (answer ≡ missing)

-- The class of a claim, if it has one, allows expansion or is gone.
abbrev pub MayGrow : (String → Read (Option Bool)) → Option String → Type 0
MayGrow classes none = Unit
MayGrow classes (some name) = Allowed (classes name)

-- The requested size stays, or grows where every claim may.
abbrev pub Fits : (String → Read (Option Bool)) → List Pvc → Option ℕ → ℕ → Type 0
Fits classes pvcs none size = Unit
Fits classes pvcs (some current) size =
    (size ≡ current) ⊎ ((current < size) × All (λ pvc. MayGrow classes pvc.storage_class) pvcs)

expandable_iff :
    (component name : String) (answer : Read (Option Bool))
    → (expandable component name answer ≡ ok tt) ↔ Allowed answer
unfolding expandable
expandable_iff component name (found none) = ((λ e. ground arith), (λ a. ground arith))
expandable_iff component name (found (some true)) = ((λ e. inl refl), (λ a. refl))
expandable_iff component name (found (some false)) = ((λ e. ground arith), (λ a. ground arith))
expandable_iff component name missing = ((λ e. inr refl), (λ a. refl))
expandable_iff component name (failed x) = ((λ e. ground arith), (λ a. ground arith))

then_iff :
    (r : Result (Unit {0})) (rest : Exec (Unit {0})) (api : Api) (h : History)
    → ((continue r (λ done. rest) api h).0 ≡ ok tt) ↔ ((r ≡ ok tt) × ((rest api h).0 ≡ ok tt))
then_iff (ok tt) rest api h = ((λ e. (refl, e)), (λ (r, e). e))
then_iff (err x) rest api h = ((λ e. ground arith), (λ (r, e). ground arith))

module _ (component : String) (api : Api) (classes : String → Read (Option Bool))
    (stable : (h : History) (name : String) → api.read_storage_class h name ≡ classes name) where
  checked-Allowed :
      (name : String) (checked : List String)
      → any (str_eq name) checked ≡ true
      → All (λ c. Allowed (classes c)) checked
      → Allowed (classes name)
  checked-Allowed name [] e a = ground arith
  checked-Allowed name (c ∷ checked) e (p, a) = elim (Bool-cases (str_eq name c)) [
    | inl same ↦ subst (λ n. Allowed (classes n)) (sym ((eq_iff name c).0 same)) p
    | inr other ↦ checked-Allowed name checked (ground arith) a
  ]

  module _ (rest : List String → Exec (Unit {0})) (R : Type 0)
      (rest_iff : (checked : List String) (h : History)
        → All (λ c. Allowed (classes c)) checked
        → ((rest checked api h).0 ≡ ok tt) ↔ R) where
    class_iff :
        (checked : List String) (name : String) (h : History)
        → All (λ c. Allowed (classes c)) checked
        → ((continue
              (expandable component name (api.read_storage_class h name))
              (λ done. rest (name ∷ checked))
              api
              (read storage_class_kind name ∷ h)).0
            ≡ ok tt)
          ↔ (Allowed (classes name) × R)
    class_iff checked name h a =
        let h' = read storage_class_kind name ∷ h in
        let both =
          then_iff (expandable component name (api.read_storage_class h name))
            (rest (name ∷ checked)) api h' in
        let allowed = expandable_iff component name (api.read_storage_class h name) in
        (
          (λ e.
              let (p, q) = both.0 e in
              let may = subst Allowed (stable h name) (allowed.0 p) in
              (may, (rest_iff (name ∷ checked) h' (may, a)).0 q)),
          (λ (may, r). both.1 (
            allowed.1 (subst Allowed (sym (stable h name)) may),
            (rest_iff (name ∷ checked) h' (may, a)).1 r,
          )),
        )

    check_claim_iff :
        (checked : List String) (class : Option String) (h : History)
        → All (λ c. Allowed (classes c)) checked
        → ((check_claim component checked class rest api h).0 ≡ ok tt) ↔ (MayGrow classes class × R)
    unfolding check_claim check_class
    check_claim_iff checked none h a =
        ((λ e. (tt, (rest_iff checked h a).0 e)), (λ (u, r). (rest_iff checked h a).1 r))
    check_claim_iff checked (some name) h a = elim (Bool-cases (any (str_eq name) checked)) [
      | inl seen ↦
          let may = checked-Allowed name checked seen a in
          rw seen ((λ e. (may, (rest_iff checked h a).0 e)), (λ (m, r). (rest_iff checked h a).1 r))
      | inr new ↦ rw new (class_iff checked name h a)
    ]

  check_claims_iff :
      (checked : List String) (pvcs : List Pvc) (h : History)
      → All (λ c. Allowed (classes c)) checked
      → ((check_claims component checked pvcs api h).0 ≡ ok tt)
        ↔ All (λ pvc. MayGrow classes pvc.storage_class) pvcs
  unfolding check_claims
  check_claims_iff checked [] h a = ((λ e. tt), (λ u. refl))
  check_claims_iff checked (pvc ∷ pvcs) h a =
      check_claim_iff (λ names. check_claims component names pvcs)
        (All (λ p. MayGrow classes p.storage_class) pvcs)
        (λ names h b. check_claims_iff names pvcs h b) checked pvc.storage_class h a

  module _ (key value : String) (h : History) (pvcs : List Pvc)
      (claims : api.list_pvcs h key value ≡ ok pvcs) where
    validate_expandable_iff :
        ((validate_expandable component key value api h).0 ≡ ok tt)
        ↔ All (λ pvc. MayGrow classes pvc.storage_class) pvcs
    unfolding validate_expandable
    validate_expandable_iff = rw claims (check_claims_iff [] pvcs (listed key value ∷ h) tt)

    validate_size_iff :
        (current : Option ℕ) (size : ℕ)
        → ((validate_size component key value current size api h).0 ≡ ok tt)
          ↔ Fits classes pvcs current size
    unfolding validate_size
    validate_size_iff none size = ((λ e. tt), (λ u. refl))
    validate_size_iff (some current) size =
        let grows = validate_expandable_iff in
        elim (Bool-cases (ltb size current)) [
          | inl shrinks ↦ rw shrinks ((λ e. ground arith), (λ f. ground arith))
          | inr not_less ↦ elim (Bool-cases (ltb current size)) [
            | inl more ↦
                rw (not_less, more)
                  (
                    (λ e. inr (ltb→lt current size more, grows.0 e)),
                    (λ f. elim f [ inl same ↦ ground arith | inr (l, a) ↦ grows.1 a ]),
                  )
            | inr equal ↦ rw (not_less, equal) ((λ e. inl (ground arith)), (λ f. refl))
          ]
        ]

equal_storage_class_iff : (a b : Option String) → (equal_storage_class a b ≡ true) ↔ (a ≡ b)
unfolding equal_storage_class
equal_storage_class_iff none none = ((λ e. refl), (λ e. refl))
equal_storage_class_iff none (some b) = ((λ e. ground arith), (λ e. ground arith))
equal_storage_class_iff (some a) none = ((λ e. ground arith), (λ e. ground arith))
equal_storage_class_iff (some a) (some b) =
    let same = eq_iff a b in ((λ e. ap some (same.0 e)), (λ e. ground arith))

validate_class_iff :
    (component : String) (current class : Option String)
    → (validate_class component current class ≡ ok tt) ↔ (current ≡ class)
unfolding validate_class
validate_class_iff component current class =
    let same = equal_storage_class_iff current class in
    elim (Bool-cases (equal_storage_class current class)) [
      | inl e ↦ ((λ a. same.0 e), (λ q. rw e refl))
      | inr e ↦ ((λ a. ground arith), (λ q. ground arith))
    ]

size_then_class :
    (m : Exec (Unit {0})) (r : Result (Unit {0})) (api : Api) (h : History)
    → (((m >> lift r) api h).0 ≡ ok tt) ↔ (((m api h).0 ≡ ok tt) × (r ≡ ok tt))
size_then_class m r api h = then_iff (m api h).0 (lift r) api (m api h).1

-- Where the API answers with these claims, and with a StorageClass independently of when it is asked,
-- a storage transition is accepted exactly when the class stays, and the size stays or is not stated
-- by the deployed template, or grows while the class of every claim, if it has one, allows expansion
-- or is gone.
pub validate_volumes_iff :
    (component : String) (api : Api) (classes : String → Read (Option Bool)) (key value : String)
    (h : History) (pvcs : List Pvc) (current : VolumeClaimTemplate) (size : ℕ)
    (class : Option String)
    → ((h : History) (name : String) → api.read_storage_class h name ≡ classes name)
    → api.list_pvcs h key value ≡ ok pvcs
    → ((validate_volumes component key value current (size, class) api h).0 ≡ ok tt)
      ↔ ((Fits classes pvcs current.storage_request size) × (current.storage_class ≡ class))
unfolding validate_volumes
validate_volumes_iff component api classes key value h pvcs current size class stable claims =
    let both =
      size_then_class (validate_size component key value current.storage_request size)
        (validate_class component current.storage_class class) api h in
    let fits =
      validate_size_iff component api classes stable key value h pvcs claims current.storage_request
        size in
    let keeps = validate_class_iff component current.storage_class class in
    (
      (λ e. let (p, q) = both.0 e in (fits.0 p, keeps.0 q)),
      (λ (f, c). both.1 (fits.1 f, keeps.1 c)),
    )
