-- ===== src/Examples/Secrets.antt =====
-- The credentials Secret of an Instance whose user changes the password.
use provider_altinity_clickh.Prelude.{◌+◌, ◌≤◌, ◌≡◌, refl, ◌↔◌, ◌⊎◌, String, [], ◌∷◌, arith, eq_iff}
use provider_altinity_clickh.Prelude.Int.{pos}
use provider_altinity_clickh.Prelude.Decimal.{itoa}
use provider_altinity_clickh.Prelude.Text.{codes, ◌<>◌}
use Prim.Native.String.{len}
use provider_altinity_clickh.Prelude.Result.{ok}
use provider_altinity_clickh.Common.{
  credentials_key_username, credentials_key_password, credentials_key_password_sha256,
  credentials_key_revision, credentials_key_user_revision,
}
use provider_altinity_clickh.Cluster.Secret.{Data, get, put, lookup, value_or_empty}
use provider_altinity_clickh.Credentials.{Crypto, complete, validate_user_secret_data}
use provider_altinity_clickh.Credentials.Derived.{IsComplete}
use provider_altinity_clickh.Credentials.Complete.{Generates, complete-IsComplete}
use provider_altinity_clickh.Credentials.Updates.{rotation}
use provider_altinity_clickh.Credentials.Username.{
  IsUsername, Reserved, validate_user_secret_data_iff,
}

abbrev pub crypto : Crypto
crypto = record { sha256_hex = λ s. "#" <> s; generate = λ key. ok "generated" }

crypto-Generates : Generates crypto
crypto-Generates key p e = let given = eq_iff "generated" "" in ground arith

abbrev pub stored : Data
stored =
    ("username", "app")
    ∷ ("password", "a long password")
    ∷ ("password_sha256_hex", "#a long password")
    ∷ ("applied_username", "app")
    ∷ ("default_password", "generated")
    ∷ ("default_password_sha256_hex", "#generated")
    ∷ ("interserver_password", "generated")
    ∷ ("cluster_secret", "generated")
    ∷ ("revision", "4")
    ∷ ("user_revision", "2")
    ∷ []

-- The same with the server certificate and its authority.
abbrev pub served : Data
served = ("tls.crt", "certificate") ∷ ("ca.crt", "authority") ∷ stored

stored-IsComplete : IsComplete crypto stored
unfolding get lookup value_or_empty itoa
stored-IsComplete = record {
  username = ground (arith, eq_iff "app" "");
  password = ground (arith, eq_iff "a long password" "");
  default_password = ground (arith, eq_iff "generated" "");
  interserver_password = ground (arith, eq_iff "generated" "");
  cluster_secret = ground (arith, eq_iff "generated" "");
  digest = refl;
  default_digest = refl;
  applied = refl;
}

abbrev edited : String
edited = "another password"

rotation_example :
    (d : Data) × (complete crypto (put credentials_key_password edited stored) ≡ ok d)
    × (get credentials_key_password_sha256 d ≡ crypto.sha256_hex edited)
    × (get credentials_key_user_revision d ≡ itoa (pos (2 + 1)))
    × (get credentials_key_revision d ≡ itoa (pos (4 + 1)))
unfolding get lookup value_or_empty itoa
rotation_example =
    rotation crypto stored edited 2 4 stored-IsComplete (ground (arith, eq_iff edited ""))
      (ground (arith, eq_iff "#another password" "#a long password")) refl refl (ground arith)
      (ground arith)

rotation_of :
    (d : Data) × (complete crypto (put credentials_key_password edited stored) ≡ ok d)
    × (get credentials_key_password_sha256 d ≡ crypto.sha256_hex edited)
    × (get credentials_key_user_revision d ≡ itoa (pos (2 + 1)))
    × (get credentials_key_revision d ≡ itoa (pos (4 + 1)))
unfolding get lookup value_or_empty itoa
rotation_of =
    rotation crypto stored edited 2 4 stored-IsComplete (ground (arith, eq_iff edited ""))
      (ground (arith, eq_iff "#another password" "#a long password")) refl refl (ground arith)
      (ground arith)

-- The Secret after the rotation.
abbrev rotated : (d : Data) × (complete crypto (put credentials_key_password edited stored) ≡ ok d)
rotated = let (d, completed, digest, user, all_) = rotation_of in (d, completed)

complete-IsComplete_example : IsComplete crypto rotated.0
complete-IsComplete_example =
    complete-IsComplete crypto (put credentials_key_password edited stored) rotated.0
      crypto-Generates rotated.1

validate_user_secret_data_iff_example : (validate_user_secret_data stored ≡ ok tt) ↔ (
    ((get credentials_key_username stored ≡ "")
      ⊎ (IsUsername (codes (get credentials_key_username stored))
          × ¬ Reserved (get credentials_key_username stored)))
    × (12 ≤ len (get credentials_key_password stored)))
validate_user_secret_data_iff_example = validate_user_secret_data_iff stored
