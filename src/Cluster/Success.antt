-- ===== src/Cluster/Success.antt =====
-- Actions that succeed against an API in which no call fails.
use provider_altinity_clickh.Prelude.{
  ◌≡◌, ◌≢◌, refl, ap, ◌∙◌, String, Bool, true, false, Option, none, some, List, if◌then◌else◌,
}
use provider_altinity_clickh.Prelude.Result.{Error, Result, ok}
use provider_altinity_clickh.Cluster.{
  Kind, Object, Pod, Read, found, missing, failed, History, Api, Exec, lift, continue, ◌>>=◌, wrap,
  wrap_error, attempt, optional_result,
}

-- No call fails. A read may still find nothing.
pub record IsHealthy (api : Api) : Type 0 where
  pub chis : (h : History) (name : String) (e : Error) → api.read_chi h name ≢ failed e
  pub chks : (h : History) (name : String) (e : Error) → api.read_chk h name ≢ failed e
  pub secrets : (h : History) (name : String) (e : Error) → api.read_secret h name ≢ failed e
  pub services : (h : History) (name : String) (e : Error) → api.read_service h name ≢ failed e
  pub others :
      (h : History) (kind : Kind) (name : String) (e : Error)
      → api.read_other h kind name ≢ failed e
  pub pods :
      (h : History) (key value : String) → (l : List Pod) × (api.list_pods h key value ≡ ok l)
  pub applies : (h : History) (object : Object) → api.apply h object ≡ ok tt
  pub deletes : (h : History) (kind : Kind) (name : String) → api.delete h kind name ≡ ok tt

abbrev pub Any : {A : Type 0} → A → Type 0
Any a = Unit

-- A read that does not fail, as getOptional takes it.
pub optional-ok :
    {A : Type 0} (name : String) (r : Read A)
    → ((e : Error) → r ≢ failed e)
    → (o : Option A) × (optional_result name r ≡ ok o)
optional-ok name (found a) n = (some a, refl)
optional-ok name missing n = (none, refl)
optional-ok name (failed e) n = absurd (n e refl)

module _ (api : Api) where
  -- The action succeeds from every history, with a result of which P holds.
  pub record Gives {A : Type 0} (P : A → Type 0) (m : Exec A) : Type 0 where
    pub gives : (h : History) → (a : A) × ((m api h).0 ≡ ok a) × P a

  continued :
      {A B : Type 0} (P : A → Type 0) (Q : B → Type 0) (r : Result A) (f : A → Exec B) (h : History)
      → (a : A) × (r ≡ ok a) × P a
      → ((a : A) → P a → Gives Q (f a))
      → (b : B) × ((continue r f api h).0 ≡ ok b) × Q b
  continued P Q r f h (a, e, p) k =
      let (b, e', q) = (k a p).gives h in (b, ap (λ x. (continue x f api h).0) e ∙ e', q)

  pub >>=-Gives :
      {A B : Type 0} (P : A → Type 0) (Q : B → Type 0) (m : Exec A) (f : A → Exec B)
      → Gives P m
      → ((a : A) → P a → Gives Q (f a))
      → Gives Q (m >>= f)
  >>=-Gives P Q m f g k = record {
    gives = λ h. continued P Q (m api h).0 f (m api h).1 (g.gives h) k;
  }

  pub lift-Gives :
      {A : Type 0} (P : A → Type 0) (r : Result A) (a : A) → r ≡ ok a → P a → Gives P (lift r)
  lift-Gives P r a e p = record { gives = λ h. (a, e, p) }

  pub wrap-Gives :
      {A : Type 0} (P : A → Type 0) (message : String) (m : Exec A)
      → Gives P m
      → Gives P (wrap message m)
  wrap-Gives P message m g = record {
    gives = λ h. let (a, e, p) = g.gives h in (a, ap (wrap_error message) e, p);
  }

  pub attempt-Gives :
      {A : Type 0} (P : A → Type 0) (m : Exec A)
      → Gives P m
      → Gives (λ r. (a : A) × (r ≡ ok a) × P a) (attempt m)
  attempt-Gives P m g = record { gives = λ h. ((m api h).0, refl, g.gives h) }

  pub if-Gives :
      {A : Type 0} (P : A → Type 0) (test : Bool) (m n : Exec A)
      → (test ≡ true → Gives P m)
      → (test ≡ false → Gives P n)
      → Gives P (if test then m else n)
  if-Gives P true m n g k = g refl
  if-Gives P false m n g k = k refl
