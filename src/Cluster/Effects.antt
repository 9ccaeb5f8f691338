-- ===== src/Cluster/Effects.antt =====
-- What an action leaves in the history, counted by a test on the calls, whatever the API answers.
use provider_altinity_clickh.Prelude.{
  ℕ, suc, ◌≡◌, ◌≢◌, refl, ◌∙◌, String, Bool, true, false, [], ◌∷◌, arith, if◌then◌else◌,
}
use provider_altinity_clickh.Prelude.Result.{Result, ok, err}
use provider_altinity_clickh.Cluster.{
  Event, History, Api, Exec, lift, continue, ◌>>=◌, wrap, attempt,
}

module _ (counts : Event → Bool) where
  abbrev pub count : History → ℕ
  count [] = 0
  count (e ∷ h) = let rest = count h in elim (counts e) [ true ↦ suc rest | false ↦ rest ]

  -- An action whose calls are none of those counted.
  pub record Keeps {A : Type 0} (m : Exec A) : Type 0 where
    pub keeps : (api : Api) (h : History) → count (m api h).1 ≡ count h

  continue-Keeps :
      {A B : Type 0} (r : Result A) (f : A → Exec B)
      → ((a : A) → Keeps (f a))
      → (api : Api) (h : History) → count (continue r f api h).1 ≡ count h
  continue-Keeps (ok a) f k api h = (k a).keeps api h
  continue-Keeps (err e) f k api h = refl

  pub >>=-Keeps :
      {A B : Type 0} (m : Exec A) (f : A → Exec B)
      → Keeps m
      → ((a : A) → Keeps (f a))
      → Keeps (m >>= f)
  >>=-Keeps m f k l = record {
    keeps = λ api h. continue-Keeps (m api h).0 f l api (m api h).1 ∙ k.keeps api h;
  }

  pub lift-Keeps : {A : Type 0} (r : Result A) → Keeps (lift r)
  lift-Keeps r = record { keeps = λ api h. refl }

  pub if-Keeps :
      {A : Type 0} (test : Bool) (m n : Exec A) → Keeps m → Keeps n → Keeps (if test then m else n)
  if-Keeps true m n k l = k
  if-Keeps false m n k l = l

  pub unless-Keeps :
      {A : Type 0} (test : Bool)
      → test ≡ false
      → (m n : Exec A) → Keeps n
      → Keeps (if test then m else n)
  unless-Keeps true e m n k = ground arith
  unless-Keeps false e m n k = k

  pub attempt-Keeps : {A : Type 0} (m : Exec A) → Keeps m → Keeps (attempt m)
  attempt-Keeps m k = record { keeps = λ api h. k.keeps api h }

  pub wrap-Keeps : {A : Type 0} (message : String) (m : Exec A) → Keeps m → Keeps (wrap message m)
  wrap-Keeps message m k = record { keeps = λ api h. k.keeps api h }

  -- The same against one API: there an action may be known to fail.
  pub record KeepsOn (api : Api) {A : Type 0} (m : Exec A) : Type 0 where
    pub keeps : (h : History) → count (m api h).1 ≡ count h

  pub Keeps-KeepsOn : {A : Type 0} (api : Api) (m : Exec A) → Keeps m → KeepsOn api m
  Keeps-KeepsOn api m k = record { keeps = λ h. k.keeps api h }

  continue-KeepsOn :
      {A B : Type 0} (api : Api) (r : Result A) (f : A → Exec B) (h : History)
      → ((a : A) → KeepsOn api (f a))
      → count (continue r f api h).1 ≡ count h
  continue-KeepsOn api (ok a) f h k = (k a).keeps h
  continue-KeepsOn api (err e) f h k = refl

  pub >>=-KeepsOn :
      {A B : Type 0} (api : Api) (m : Exec A) (f : A → Exec B)
      → KeepsOn api m
      → ((a : A) → KeepsOn api (f a))
      → KeepsOn api (m >>= f)
  >>=-KeepsOn api m f k l = record {
    keeps = λ h. continue-KeepsOn api (m api h).0 f (m api h).1 l ∙ k.keeps h;
  }

  continue_failed :
      {A B : Type 0} (api : Api) (r : Result A) (f : A → Exec B) (h : History)
      → ((a : A) → r ≢ ok a)
      → count (continue r f api h).1 ≡ count h
  continue_failed api (ok a) f h n = absurd (n a refl)
  continue_failed api (err e) f h n = refl

  -- What comes after a call that fails does not happen.
  pub failing-KeepsOn :
      {A B : Type 0} (api : Api) (m : Exec A) (f : A → Exec B)
      → ((h : History) (a : A) → (m api h).0 ≢ ok a)
      → KeepsOn api m
      → KeepsOn api (m >>= f)
  failing-KeepsOn api m f n k = record {
    keeps = λ h. continue_failed api (m api h).0 f (m api h).1 (n h) ∙ k.keeps h;
  }
