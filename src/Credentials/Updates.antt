-- ===== src/Credentials/Updates.antt =====
-- Secrets that are complete already: nothing changes, or the user has edited the password.
use provider_altinity_clickh.Prelude.{
  ℕ, ◌+◌, ◌<◌, ◌≡◌, refl, ◌≢◌, String, true, false, Option, none, some, [], ◌∷◌, ◌∙◌, ap, arith,
  eq_iff, eq_refl, ◌==◌,
}
use provider_altinity_clickh.Prelude.Int.{pos}
use provider_altinity_clickh.Prelude.Decimal.{atoi, itoa, increment, max_int, atoi-itoa}
use provider_altinity_clickh.Prelude.Text.{str_eq, is_empty, is_empty_iff}
use provider_altinity_clickh.Prelude.Result.{ok}
use provider_altinity_clickh.Cluster.{Api, History, found, read, secret_kind}
use provider_altinity_clickh.Common.{
  credentials_key_username, credentials_key_password, credentials_key_password_sha256,
  credentials_key_default_password, credentials_key_interserver_password,
  credentials_key_cluster_secret, credentials_key_revision, credentials_key_user_revision,
}
use provider_altinity_clickh.Cluster.Secret.{Data, get, put, lookup, get-put}
use provider_altinity_clickh.Instance.{Instance}
use provider_altinity_clickh.Rollout.{credentials_secret_name}
use provider_altinity_clickh.Credentials.{
  Crypto, put_if, derive, complete, same_value, agrees, same_data, store, ensure_credentials,
}
use provider_altinity_clickh.Credentials.Derived.{
  IsComplete, IsPresent, derive_updates, derive_revisions, derive_idle,
}
use provider_altinity_clickh.Credentials.Complete.{fill_key_idle}

-- With every credential there, nothing is generated.
complete_present :
    (crypto : Crypto) (m : Data) → IsPresent m → complete crypto m ≡ ok (derive crypto (m, false))
unfolding complete put_if
complete_present crypto m c =
    let named : is_empty (get credentials_key_username m) ≡ false =
      ground (arith, is_empty_iff (get credentials_key_username m), c.username) in
    let with_password : is_empty (get credentials_key_password m) ≡ false =
      ground (arith, is_empty_iff (get credentials_key_password m), c.password) in
    rw named (
      rw with_password (
        rw (fill_key_idle crypto credentials_key_default_password m false c.default_password) (
          rw
            (fill_key_idle crypto credentials_key_interserver_password m false
              c.interserver_password)
            (rw (fill_key_idle crypto credentials_key_cluster_secret m false c.cluster_secret)
              refl))))

-- A complete Secret is left as it is, so the next Sync applies nothing.
pub complete_idle : (crypto : Crypto) (m : Data) → IsComplete crypto m → complete crypto m ≡ ok m
complete_idle crypto m c =
    complete_present crypto m (record {
      username = c.username;
      password = c.password;
      default_password = c.default_password;
      interserver_password = c.interserver_password;
      cluster_secret = c.cluster_secret;
    })
    ∙ ap (λ (d : Data). ok d) (derive_idle crypto m c)

complete_edited :
    (crypto : Crypto) (m : Data) (p : String)
    → IsComplete crypto m
    → p ≢ ""
    → complete crypto (put credentials_key_password p m)
      ≡ ok (derive crypto (put credentials_key_password p m, false))
complete_edited crypto m p c np =
    complete_present crypto (put credentials_key_password p m) (record {
      username = simp get-put c.username;
      password = simp get-put np;
      default_password = simp get-put c.default_password;
      interserver_password = simp get-put c.interserver_password;
      cluster_secret = simp get-put c.cluster_secret;
    })

next_count :
    (s : String) (n : ℕ)
    → s ≡ itoa (pos n)
    → n < max_int
    → itoa (increment (atoi s)) ≡ itoa (pos (n + 1))
unfolding increment
next_count s n e l =
    let read : atoi s ≡ pos n = ap atoi e ∙ atoi-itoa n (omega arith) in
    let below : (n == max_int) ≡ false = ground arith in rw (read, below)

rotated_counts :
    (crypto : Crypto) (m : Data) (n k : ℕ)
    → str_eq
        (crypto.sha256_hex (get credentials_key_password m))
        (get credentials_key_password_sha256 m)
      ≡ false
    → get credentials_key_user_revision m ≡ itoa (pos n)
    → get credentials_key_revision m ≡ itoa (pos k)
    → n < max_int
    → k < max_int
    → (get credentials_key_user_revision (derive crypto (m, false)) ≡ itoa (pos (n + 1)))
      × (get credentials_key_revision (derive crypto (m, false)) ≡ itoa (pos (k + 1)))
rotated_counts crypto m n k rotated en ek ln lk =
    let revisions = derive_revisions crypto m false in
    let user = next_count _ n en ln in let any = next_count _ k ek lk in ground arith

-- Rotating the password: a complete Secret whose password was edited to one with another digest is
-- completed, gets the new digest, and both of its counters, below the largest int, go up by one.
pub rotation :
    (crypto : Crypto) (m : Data) (p : String) (n k : ℕ)
    → IsComplete crypto m
    → p ≢ ""
    → crypto.sha256_hex p ≢ get credentials_key_password_sha256 m
    → get credentials_key_user_revision m ≡ itoa (pos n)
    → get credentials_key_revision m ≡ itoa (pos k)
    → n < max_int
    → k < max_int
    → (d : Data) × (complete crypto (put credentials_key_password p m) ≡ ok d)
      × (get credentials_key_password_sha256 d ≡ crypto.sha256_hex p)
      × (get credentials_key_user_revision d ≡ itoa (pos (n + 1)))
      × (get credentials_key_revision d ≡ itoa (pos (k + 1)))
rotation crypto m p n k c np nd en ek ln lk =
    let m' = put credentials_key_password p m in
    let rotated : str_eq (crypto.sha256_hex (get credentials_key_password m'))
          (get credentials_key_password_sha256 m')
        ≡ false =
      simp get-put
        (ground (arith, eq_iff (crypto.sha256_hex p) (get credentials_key_password_sha256 m))) in
    let next = rotated_counts crypto m' n k rotated in
    (
      derive crypto (m', false),
      complete_edited crypto m p c np,
      (derive_updates crypto m' false).0 ∙ ap crypto.sha256_hex (simp get-put),
      (next (simp get-put en) (simp get-put ek) ln lk).0,
      (next (simp get-put en) (simp get-put ek) ln lk).1,
    )

same_value_refl : (o : Option String) → same_value o o ≡ true
same_value_refl none = refl
same_value_refl (some s) = eq_refl s

agrees_refl : (m rest : Data) → agrees m m rest ≡ true
unfolding agrees
agrees_refl m [] = refl
agrees_refl m ((k, v) ∷ rest) = rw (same_value_refl (lookup k m)) (agrees_refl m rest)

-- With a complete credentials Secret in the cluster, ensureCredentials makes one call, the read of
-- that Secret, and returns its data.
pub ensure_credentials_idle :
    (crypto : Crypto) (instance_ : Instance) (api : Api) (h : History) (m : Data)
    → api.read_secret h (credentials_secret_name instance_.name) ≡ found m
    → IsComplete crypto m
    → ensure_credentials crypto instance_ api h
      ≡ (ok m, read secret_kind (credentials_secret_name instance_.name) ∷ h)
unfolding ensure_credentials store same_data
ensure_credentials_idle crypto instance_ api h m e c =
    rw e (rw (complete_idle crypto m c) (rw (agrees_refl m m)))
