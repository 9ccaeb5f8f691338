-- ===== src/Cluster/Bounds.antt =====
-- How many calls of a kind an action makes at most, and what it leaves of that for the actions after
-- it: `pot` of its result is what they may still spend.
use provider_altinity_clickh.Prelude.{
  ℕ, ◌+◌, ◌≤◌, ◌≡◌, refl, String, Bool, true, false, arith, if◌then◌else◌,
}
use provider_altinity_clickh.Prelude.Result.{Result, ok, err}
use provider_altinity_clickh.Cluster.{
  Event, History, Api, Exec, continue, ◌>>=◌, wrap, wrap_error, attempt,
}
use provider_altinity_clickh.Cluster.Effects.{count, Keeps}

abbrev pub left : {A : Type 0} → (A → ℕ) → Result A → ℕ
left pot (ok a) = pot a
left pot (err e) = 0

abbrev pub nothing : {A : Type 0} → A → ℕ
nothing a = 0

module _ (counts : Event → Bool) where
  pub record Spends (n : ℕ) {A : Type 0} (pot : A → ℕ) (m : Exec A) : Type 0 where
    pub spends :
        (api : Api) (h : History)
        → count counts (m api h).1 + left pot (m api h).0 ≤ n + count counts h

  continue-Spends :
      {A B : Type 0} (k : ℕ) (p : A → ℕ) (q : B → ℕ) (r : Result A) (f : A → Exec B)
      → ((a : A) → Spends (k + p a) q (f a))
      → (api : Api) (h : History)
      → count counts (continue r f api h).1 + left q (continue r f api h).0
        ≤ k + left p r + count counts h
  continue-Spends k p q (ok a) f s api h = (s a).spends api h
  continue-Spends k p q (err e) f s api h = omega arith

  pub >>=-Spends :
      {A B : Type 0} (n k : ℕ) (p : A → ℕ) (q : B → ℕ) (m : Exec A) (f : A → Exec B)
      → Spends n p m
      → ((a : A) → Spends (k + p a) q (f a))
      → Spends (n + k) q (m >>= f)
  >>=-Spends n k p q m f s t = record {
    spends = λ api h.
        let first = s.spends api h in
        let second = continue-Spends k p q (m api h).0 f t api (m api h).1 in omega arith;
  }

  continue_kept :
      {A B : Type 0} (n : ℕ) (q : B → ℕ) (r : Result A) (f : A → Exec B)
      → ((a : A) → Spends n q (f a))
      → (api : Api) (h : History)
      → count counts (continue r f api h).1 + left q (continue r f api h).0 ≤ n + count counts h
  continue_kept n q (ok a) f s api h = (s a).spends api h
  continue_kept n q (err e) f s api h = omega arith

  -- An action that makes none of the calls before one that makes some.
  pub Keeps-Spends :
      {A B : Type 0} (n : ℕ) (q : B → ℕ) (m : Exec A) (f : A → Exec B)
      → Keeps counts m
      → ((a : A) → Spends n q (f a))
      → Spends n q (m >>= f)
  Keeps-Spends n q m f k t = record {
    spends = λ api h.
        let first = k.keeps api h in
        let second = continue_kept n q (m api h).0 f t api (m api h).1 in omega arith;
  }

  left-nothing : {A : Type 0} (r : Result A) → left (nothing {A = A}) r ≡ 0
  left-nothing (ok a) = refl
  left-nothing (err e) = refl

  pub free : {A : Type 0} (n : ℕ) (m : Exec A) → Keeps counts m → Spends n nothing m
  free n m k = record {
    spends =
        λ api h. let first = k.keeps api h in let second = left-nothing (m api h).0 in omega arith;
  }

  left-wrap_error :
      {A : Type 0} (pot : A → ℕ) (message : String) (r : Result A)
      → left pot (wrap_error message r) ≡ left pot r
  left-wrap_error pot message (ok a) = refl
  left-wrap_error pot message (err e) = refl

  pub wrap-Spends :
      {A : Type 0} (n : ℕ) (pot : A → ℕ) (message : String) (m : Exec A)
      → Spends n pot m
      → Spends n pot (wrap message m)
  wrap-Spends n pot message m s = record {
    spends = λ api h.
        let first = s.spends api h in
        let second = left-wrap_error pot message (m api h).0 in omega arith;
  }

  pub attempt-Spends :
      {A : Type 0} (n : ℕ) (m : Exec A) → Spends n nothing m → Spends n nothing (attempt m)
  attempt-Spends n m s = record {
    spends =
        λ api h. let first = s.spends api h in let second = left-nothing (m api h).0 in omega arith;
  }

  pub if-Spends :
      {A : Type 0} (n : ℕ) (pot : A → ℕ) (test : Bool) (m k : Exec A)
      → Spends n pot m
      → Spends n pot k
      → Spends n pot (if test then m else k)
  if-Spends n pot true m k s t = s
  if-Spends n pot false m k s t = t

  pub weaken-Spends :
      {A : Type 0} (n n' : ℕ) (pot : A → ℕ) (m : Exec A) → n ≤ n' → Spends n pot m → Spends n' pot m
  weaken-Spends n n' pot m le s = record {
    spends = λ api h. let first = s.spends api h in omega arith;
  }
