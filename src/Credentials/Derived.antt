-- ===== src/Credentials/Derived.antt =====
-- What is derived in the credentials Secret: digests, the applied username and revisions.
use provider_altinity_clickh.Prelude.{
  ◌≡◌, ◌≢◌, String, Bool, false, not, ◌||◌, arith, eq_iff, if◌then◌else◌,
}
use provider_altinity_clickh.Prelude.Decimal.{atoi, itoa, increment}
use provider_altinity_clickh.Prelude.Text.{str_eq}
use provider_altinity_clickh.Common.{
  credentials_key_username, credentials_key_password, credentials_key_password_sha256,
  credentials_key_default_password, credentials_key_default_password_sha256,
  credentials_key_interserver_password, credentials_key_cluster_secret, credentials_key_revision,
  credentials_key_user_revision, credentials_key_applied_username,
}
use provider_altinity_clickh.Cluster.Secret.{Data, get, get-put}
use provider_altinity_clickh.Credentials.{Crypto, put_if, bump_if, derive}

pub get-put_if :
    (test : Bool) (key j value : String) (m : Data)
    → get j (put_if test key value m)
      ≡ (if str_eq key j then (if test then value else get j m) else get j m)
unfolding put_if
get-put_if test key j value m = ground (arith, get-put key j value m)

get-bump_if :
    (test : Bool) (key j : String) (m : Data)
    → get j (bump_if test key m) ≡ (
        if str_eq key j
        then (if test then itoa (increment (atoi (get key m))) else get j m)
        else get j m)
unfolding bump_if
get-bump_if test key j m = ground (arith, get-put key j (itoa (increment (atoi (get key m)))) m)

ruleset gets = (get-put_if, get-bump_if)

-- Everything is there and everything that is derived is up to date.
pub record IsComplete (crypto : Crypto) (m : Data) : Type 0 where
  pub username : get credentials_key_username m ≢ ""
  pub password : get credentials_key_password m ≢ ""
  pub default_password : get credentials_key_default_password m ≢ ""
  pub interserver_password : get credentials_key_interserver_password m ≢ ""
  pub cluster_secret : get credentials_key_cluster_secret m ≢ ""
  pub digest :
      get credentials_key_password_sha256 m ≡ crypto.sha256_hex (get credentials_key_password m)
  pub default_digest :
      get credentials_key_default_password_sha256 m
      ≡ crypto.sha256_hex (get credentials_key_default_password m)
  pub applied : get credentials_key_applied_username m ≡ get credentials_key_username m

-- An entry that is written when it differs is then the one wanted.
put-stale : (a b : String) → (if not (str_eq a b) then a else b) ≡ a
put-stale a b = ground (arith, eq_iff a b)

-- The credentials that are not derived are there.
pub record IsPresent (m : Data) : Type 0 where
  pub username : get credentials_key_username m ≢ ""
  pub password : get credentials_key_password m ≢ ""
  pub default_password : get credentials_key_default_password m ≢ ""
  pub interserver_password : get credentials_key_interserver_password m ≢ ""
  pub cluster_secret : get credentials_key_cluster_secret m ≢ ""

module _ (crypto : Crypto) (m : Data) (changed : Bool) where
  pub derive_keeps :
      (get credentials_key_username (derive crypto (m, changed)) ≡ get credentials_key_username m)
      × (get credentials_key_password (derive crypto (m, changed)) ≡ get credentials_key_password m)
      × (get credentials_key_default_password (derive crypto (m, changed))
          ≡ get credentials_key_default_password m)
      × (get credentials_key_interserver_password (derive crypto (m, changed))
          ≡ get credentials_key_interserver_password m)
      × (get credentials_key_cluster_secret (derive crypto (m, changed))
          ≡ get credentials_key_cluster_secret m)
  unfolding derive
  derive_keeps = (simp gets, simp gets, simp gets, simp gets, simp gets)

  pub derive_updates :
      (get credentials_key_password_sha256 (derive crypto (m, changed))
        ≡ crypto.sha256_hex (get credentials_key_password m))
      × (get credentials_key_default_password_sha256 (derive crypto (m, changed))
          ≡ crypto.sha256_hex (get credentials_key_default_password m))
      × (get credentials_key_applied_username (derive crypto (m, changed))
          ≡ get credentials_key_username m)
  unfolding derive
  derive_updates = (simp gets (put-stale _ _), simp gets (put-stale _ _), simp gets (put-stale _ _))

  -- The revisions count the changes: of the administrative credentials, and of any.
  pub derive_revisions :
      let rotated = not (
        str_eq
          (crypto.sha256_hex (get credentials_key_password m))
          (get credentials_key_password_sha256 m)) in
      let renamed =
        not (str_eq (get credentials_key_username m) (get credentials_key_applied_username m)) in
      let redefaulted = not (
        str_eq
          (crypto.sha256_hex (get credentials_key_default_password m))
          (get credentials_key_default_password_sha256 m)) in
      (get credentials_key_user_revision (derive crypto (m, changed)) ≡ (
        if rotated || renamed
        then itoa (increment (atoi (get credentials_key_user_revision m)))
        else get credentials_key_user_revision m))
      × (get credentials_key_revision (derive crypto (m, changed)) ≡ (
          if (changed || redefaulted) || (rotated || renamed)
          then itoa (increment (atoi (get credentials_key_revision m)))
          else get credentials_key_revision m))
  unfolding derive
  derive_revisions = (simp gets, simp gets)

pub derive_idle : (crypto : Crypto) (m : Data) → IsComplete crypto m → derive crypto (m, false) ≡ m
unfolding derive put_if bump_if
derive_idle crypto m c = ground (
  arith,
  eq_iff (crypto.sha256_hex (get credentials_key_password m))
      (get credentials_key_password_sha256 m),
  eq_iff (get credentials_key_username m) (get credentials_key_applied_username m),
  eq_iff (crypto.sha256_hex (get credentials_key_default_password m))
      (get credentials_key_default_password_sha256 m),
)
