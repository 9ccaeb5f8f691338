-- ===== src/Credentials/Username.antt =====
-- Which administrative credentials are accepted.
use Prim.Native.String.{len}
use provider_altinity_clickh.Prelude.{
  ℕ, ◌≤◌, ◌≡◌, refl, ◌↔◌, ◌⊎◌, String, true, List, [], ◌∷◌, arith, eq_iff, all, All, length,
}
use provider_altinity_clickh.Prelude.Text.{is_empty_iff, codes}
use provider_altinity_clickh.Prelude.Result.{ok}
use provider_altinity_clickh.Common.{credentials_key_username, credentials_key_password}
use provider_altinity_clickh.Cluster.Secret.{Data, get}
use provider_altinity_clickh.Credentials.{
  is_word, matches_username, is_username, is_reserved, validate_user_secret_data,
}

abbrev IsLetter : ℕ → Type 0
IsLetter c = ((b'A' ≤ c) × (c ≤ b'Z')) ⊎ ((b'a' ≤ c) × (c ≤ b'z')) ⊎ (c ≡ b'_')

abbrev IsWord : ℕ → Type 0
IsWord c = IsLetter c ⊎ ((b'0' ≤ c) × (c ≤ b'9'))

-- A letter or underscore, then at most 63 letters, digits and underscores.
abbrev pub IsUsername : List ℕ → Type 0
IsUsername [] = ⊥
IsUsername (c ∷ cs) = IsLetter c × All IsWord cs × (length cs ≤ 63)

all-is_word_iff : (cs : List ℕ) → (all is_word cs ≡ true) ↔ All IsWord cs
all-is_word_iff [] = ((λ e. tt), (λ a. refl))
all-is_word_iff (c ∷ cs) = let ih = all-is_word_iff cs in ground arith

is_username_iff : (s : String) → (is_username s ≡ true) ↔ IsUsername (codes s)
unfolding is_username
is_username_iff s = on (codes s)
  where
    on : (cs : List ℕ) → (matches_username cs ≡ true) ↔ IsUsername cs
    on [] = ground arith
    on (c ∷ cs) = let rest = all-is_word_iff cs in ground arith

abbrev pub Reserved : String → Type 0
Reserved s = (s ≡ "default") ⊎ (s ≡ "interserver") ⊎ (s ≡ "clickhouse_operator")

-- Credentials are accepted exactly when the username, unless empty, fits the pattern and is not
-- reserved, and the password has at least 12 bytes.
pub validate_user_secret_data_iff :
    (m : Data)
    → (validate_user_secret_data m ≡ ok tt) ↔ (
        ((get credentials_key_username m ≡ "")
          ⊎ (IsUsername (codes (get credentials_key_username m))
              × ¬ Reserved (get credentials_key_username m)))
        × (12 ≤ len (get credentials_key_password m)))
unfolding validate_user_secret_data is_reserved
validate_user_secret_data_iff m = ground (
  arith,
  is_empty_iff (get credentials_key_username m),
  is_username_iff (get credentials_key_username m),
  eq_iff (get credentials_key_username m) "default",
  eq_iff (get credentials_key_username m) "interserver",
  eq_iff (get credentials_key_username m) "clickhouse_operator",
)
