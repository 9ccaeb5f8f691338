-- ===== src/Credentials.antt =====
-- internal/provider/users.go: the credentials Secret of an Instance. SHA-256 and the random
-- passwords are the parameter `Crypto`.
pub mod Derived
pub mod Complete
pub mod Updates
pub mod Username
use Prim.Native.String.{len}
use provider_altinity_clickh.Prelude.{
  ℕ, String, Bool, true, false, not, ◌&&◌, ◌||◌, Option, none, some, List, [], ◌∷◌, if◌then◌else◌,
  ltb, leb, all, length,
}
use provider_altinity_clickh.Prelude.Decimal.{atoi, itoa, increment}
use provider_altinity_clickh.Prelude.Text.{str_eq, is_empty, codes}
use provider_altinity_clickh.Prelude.Result.{failure, wrapped, Result, ok, err, reject_if}
use provider_altinity_clickh.Prelude.Result
use provider_altinity_clickh.Common.{
  app_user_name, min_password_length, interserver_user, credentials_key_username,
  credentials_key_password, credentials_key_password_sha256, credentials_key_default_password,
  credentials_key_default_password_sha256, credentials_key_interserver_password,
  credentials_key_cluster_secret, credentials_key_revision, credentials_key_user_revision,
  credentials_key_applied_username,
}
use provider_altinity_clickh.Instance.{Instance}
use provider_altinity_clickh.Cluster
use provider_altinity_clickh.Cluster.{
  secret, found, missing, failed, Read, Exec, pure, lift, raise, get_secret, get_result, wrap,
  wrap_error, apply,
}
use provider_altinity_clickh.Cluster.Secret.{Data, get, put, lookup}
use provider_altinity_clickh.Rollout.{credentials_secret_name}

-- `generate key` is generatePassword for the credential kept under `key`.
pub record Crypto : Type 0 where
  pub sha256_hex : String → String
  pub generate : String → Result String

-- usernamePattern: ^[A-Za-z_][A-Za-z0-9_]{0,63}$
abbrev is_letter : ℕ → Bool
is_letter c = (leb b'A' c && leb c b'Z') || (leb b'a' c && leb c b'z') || (leb b'_' c && leb c b'_')

abbrev is_word : ℕ → Bool
is_word c = is_letter c || (leb b'0' c && leb c b'9')

matches_username : List ℕ → Bool
matches_username [] = false
matches_username (c ∷ cs) = is_letter c && all is_word cs && leb (length cs) 63

unfoldable pub is_username : String → Bool
unfolding matches_username
is_username username = matches_username (codes username)

unfoldable pub is_reserved : String → Bool
is_reserved username =
    str_eq username "default"
    || str_eq username interserver_user
    || str_eq username "clickhouse_operator"

unfoldable pub validate_user_secret_data : Data → Result (Unit {0})
validate_user_secret_data data_ =
    let username = get credentials_key_username data_ in
    let password = get credentials_key_password data_ in
    Result.◌>>◌
      (reject_if (not (is_empty username) && not (is_username username))
        (failure "username must start with a letter or underscore"))
      (Result.◌>>◌
        (reject_if (not (is_empty username) && is_reserved username)
          (failure "username is reserved"))
        (reject_if (ltb (len password) min_password_length)
          (failure "password must be at least 12 characters")))

-- `if cond { data[key] = value }`
unfoldable pub put_if : Bool → String → String → Data → Data
put_if test key value data_ = if test then put key value data_ else data_

unfoldable pub bump_revision : String → Data → Data
bump_revision key data_ = put key (itoa (increment (atoi (get key data_)))) data_

-- `if test { bumpRevision(data, key) }`
unfoldable pub bump_if : Bool → String → Data → Data
unfolding bump_revision
bump_if test key data_ = if test then bump_revision key data_ else data_

-- The loop over the generated credentials; the flag is `changed`.
unfoldable pub fill_key : Crypto → String → Data × Bool → Result (Data × Bool)
fill_key crypto key (data_, changed) =
    if is_empty (get key data_)
    then Result.◌>>=◌ (wrap_error "generate" (crypto.generate key))
        (λ generated. ok (put key generated data_, true))
    else ok (data_, changed)

unfoldable pub fill_keys : Crypto → List String → Data × Bool → Result (Data × Bool)
fill_keys crypto [] s = ok s
fill_keys crypto (key ∷ keys) s = Result.◌>>=◌ (fill_key crypto key s) (fill_keys crypto keys)

abbrev pub generated_keys : List String
generated_keys =
    credentials_key_default_password ∷ credentials_key_interserver_password
    ∷ credentials_key_cluster_secret ∷ []

-- The derived entries and the revisions that count their changes.
unfoldable pub derive : Crypto → Data × Bool → Data
derive crypto (data_, changed) =
    let digest = crypto.sha256_hex (get credentials_key_password data_) in
    let rotated = not (str_eq digest (get credentials_key_password_sha256 data_)) in
    let d1 = put_if rotated credentials_key_password_sha256 digest data_ in
    let username = get credentials_key_username d1 in
    let renamed = not (str_eq username (get credentials_key_applied_username d1)) in
    let d2 = put_if renamed credentials_key_applied_username username d1 in
    let default_digest = crypto.sha256_hex (get credentials_key_default_password d2) in
    let redefaulted =
      not (str_eq default_digest (get credentials_key_default_password_sha256 d2)) in
    let d3 = put_if redefaulted credentials_key_default_password_sha256 default_digest d2 in
    let d4 = bump_if (rotated || renamed) credentials_key_user_revision d3 in
    bump_if ((changed || redefaulted) || (rotated || renamed)) credentials_key_revision d4

-- What ensureCredentials makes of the data that it starts from.
unfoldable pub complete : Crypto → Data → Result Data
unfolding fill_keys
complete crypto start =
    let data_ =
      put_if (is_empty (get credentials_key_username start)) credentials_key_username app_user_name
        start in
    Result.◌>>◌
      (reject_if (is_empty (get credentials_key_password data_)) (failure "has no password"))
      (Result.◌>>=◌ (fill_keys crypto generated_keys (data_, false))
        (λ filled. ok (derive crypto filled)))

-- The credentials that a new Instance starts with.
unfoldable pub seed_from : Crypto → Option String → Exec Data
seed_from crypto none = lift (
    Result.◌>>=◌ (wrap_error "generate password" (crypto.generate credentials_key_password))
      (λ password. ok ((credentials_key_password, password) ∷ [])))
seed_from crypto (some ref) = Cluster.◌>>=◌ (get_secret ref) (λ answer. lift (
    Result.◌>>=◌ (wrap_error "read spec.userSecretRef secret" (get_result answer)) (λ src.
      Result.◌>>◌ (wrap_error "spec.userSecretRef secret" (validate_user_secret_data src)) (
        ok (
          (credentials_key_username, get credentials_key_username src)
          ∷ (credentials_key_password, get credentials_key_password src)
          ∷ [])))))

unfoldable pub seed_credentials : Crypto → Instance → Exec Data
unfolding seed_from
seed_credentials crypto instance_ = seed_from crypto instance_.user_secret_ref

-- maps.EqualFunc: the two maps give every key that either has the same value.
abbrev same_value : Option String → Option String → Bool
same_value none none = true
same_value (some a) (some b) = str_eq a b
same_value _ _ = false

agrees : Data → Data → Data → Bool
agrees m m' [] = true
agrees m m' ((k, v) ∷ rest) = same_value (lookup k m) (lookup k m') && agrees m m' rest

unfoldable pub same_data : Data → Data → Bool
unfolding agrees
same_data m m' = agrees m m' m && agrees m m' m'

-- The Secret is applied unless it exists with this very data.
unfoldable pub store : Instance → Option Data → Data → Exec Data
store instance_ none data_ =
    Cluster.◌>>◌
      (wrap "apply credentials secret"
        (apply (secret (credentials_secret_name instance_.name) data_)))
      (pure data_)
store instance_ (some existing) data_ =
    if same_data existing data_
    then pure existing
    else Cluster.◌>>◌
        (wrap "apply credentials secret"
          (apply (secret (credentials_secret_name instance_.name) data_)))
        (pure data_)

unfoldable pub start_from : Crypto → Instance → Read Data → Exec (Option Data × Data)
start_from crypto instance_ (found data_) = pure (some data_, data_)
start_from crypto instance_ missing =
    Cluster.◌>>=◌ (seed_credentials crypto instance_) (λ seed. pure (none, seed))
start_from crypto instance_ (failed e) = raise (wrapped "read credentials secret" e)

unfoldable pub ensure_credentials : Crypto → Instance → Exec Data
unfolding start_from
ensure_credentials crypto instance_ =
    Cluster.◌>>=◌ (get_secret (credentials_secret_name instance_.name)) (λ answer.
      Cluster.◌>>=◌ (start_from crypto instance_ answer) (λ start.
        Cluster.◌>>=◌ (lift (complete crypto start.1)) (λ data_. store instance_ start.0 data_)))
