-- ===== src/Cluster/Inversion.antt =====
-- What a chain of calls that succeeded did, one call at a time.
use provider_altinity_clickh.Prelude.{◌≡◌, refl, arith}
use provider_altinity_clickh.Prelude.Result.{Result, ok, err}
use provider_altinity_clickh.Cluster.{Api, History, Exec, continue, ◌>>=◌}

continue-eq-ok {ℓ} :
    {A B : Type ℓ} (r : Result A) (f : A → Exec B) (api : Api) (h h' : History) (b : B)
    → continue r f api h ≡ (ok b, h')
    → (a : A) × (r ≡ ok a) × (f a api h ≡ (ok b, h'))
continue-eq-ok (ok a) f api h h' b e = (a, refl, e)
continue-eq-ok (err x) f api h h' b e = ground arith

-- A chain that ends in a result went through its first call, and on from the history it left.
pub >>=-eq-ok {ℓ} :
    {A B : Type ℓ} (m : Exec A) (f : A → Exec B) (api : Api) (h h' : History) (b : B)
    → (m >>= f) api h ≡ (ok b, h')
    → (a : A) × ((m api h).0 ≡ ok a) × (f a api (m api h).1 ≡ (ok b, h'))
>>=-eq-ok m f api h h' b e = continue-eq-ok (m api h).0 f api (m api h).1 h' b e
