-- ===== src/Credentials/Complete.antt =====
-- What ensureCredentials leaves in the credentials Secret.
use provider_altinity_clickh.Prelude.{
  ◌≡◌, refl, ◌≢◌, inl, inr, String, Bool, true, false, sym, ◌∙◌, ap, arith, eq_iff, eq_refl,
  Bool-cases,
}
use provider_altinity_clickh.Prelude.Text.{str_eq, is_empty, is_empty_iff}
use provider_altinity_clickh.Prelude.Result.{failure, reject_if, Result, ok, err}
use provider_altinity_clickh.Prelude.Result
use provider_altinity_clickh.Cluster.{wrap_error}
use provider_altinity_clickh.Common.{
  app_user_name, credentials_key_username, credentials_key_password,
  credentials_key_default_password, credentials_key_interserver_password,
  credentials_key_cluster_secret,
}
use provider_altinity_clickh.Cluster.Secret.{Data, get, put, get-put}
use provider_altinity_clickh.Credentials.{
  Crypto, put_if, fill_key, fill_keys, generated_keys, derive, complete,
}
use provider_altinity_clickh.Credentials.Derived.{
  get-put_if, IsComplete, derive_updates, derive_keeps,
}

-- A generated password is hex text of 24 random bytes, never the empty text.
abbrev pub Generates : Crypto → Type 0
Generates crypto = (key p : String) → crypto.generate key ≡ ok p → p ≢ ""

record Filled (key : String) (m m' : Data) : Type 0 where
  filled : get key m' ≢ ""
  others : (j : String) → str_eq key j ≡ false → get j m' ≡ get j m

put-Filled : (key p : String) (m : Data) → p ≢ "" → Filled key m (put key p m)
put-Filled key p m n = record {
  filled = λ e. n (simp (get-put, eq_refl) at e);
  others = λ j d. simp (get-put, d);
}

generated-Filled :
    (crypto : Crypto) (key : String) (m m' : Data) (c' : Bool)
    → Generates crypto
    → (r : Result String) → crypto.generate key ≡ r
    → Result.◌>>=◌ {B = Data × Bool} (wrap_error "generate" r) (λ g. ok (put key g m, true))
      ≡ ok (m', c')
    → Filled key m m'
generated-Filled crypto key m m' c' gen (ok p) g e =
    let same : put key p m ≡ m' = ground arith in rw (← same) (put-Filled key p m (gen key p g))
generated-Filled crypto key m m' c' gen (err x) g e = cc

fill_key-Filled :
    (crypto : Crypto) (key : String) (m m' : Data) (c c' : Bool)
    → Generates crypto
    → fill_key crypto key (m, c) ≡ ok (m', c')
    → Filled key m m'
unfolding fill_key
fill_key-Filled crypto key m m' c c' gen e = elim (Bool-cases (is_empty (get key m))) [
  | inl absent ↦ generated-Filled crypto key m m' c' gen (crypto.generate key) refl (rw absent at e)
  | inr present ↦
      let same : m ≡ m' = ground arith in
      rw (← same)
        (record { filled = λ n. ground (arith, is_empty_iff (get key m)); others = λ j d. refl })
]

pub fill_key_idle :
    (crypto : Crypto) (key : String) (m : Data) (c : Bool)
    → get key m ≢ ""
    → fill_key crypto key (m, c) ≡ ok (m, c)
unfolding fill_key
fill_key_idle crypto key m c n = ground (arith, is_empty_iff (get key m))

record AllFilled (m m' : Data) : Type 0 where
  default_password : get credentials_key_default_password m' ≢ ""
  interserver_password : get credentials_key_interserver_password m' ≢ ""
  cluster_secret : get credentials_key_cluster_secret m' ≢ ""
  username : get credentials_key_username m' ≡ get credentials_key_username m
  password : get credentials_key_password m' ≡ get credentials_key_password m

>>=-eq-ok {ℓ κ} :
    {A : Type ℓ} {B : Type κ} (r : Result A) (f : A → Result B) {b : B}
    → Result.◌>>=◌ r f ≡ ok b
    → (a : A) × (r ≡ ok a) × (f a ≡ ok b)
>>=-eq-ok (ok a) f h = (a, refl, h)
>>=-eq-ok (err e) f h = cc

fill_keys-AllFilled :
    (crypto : Crypto) (m m' : Data) (c' : Bool)
    → Generates crypto
    → fill_keys crypto generated_keys (m, false) ≡ ok (m', c')
    → AllFilled m m'
unfolding fill_keys
fill_keys-AllFilled crypto m m' c' gen e =
    let (a, e1, r1) = >>=-eq-ok (fill_key crypto credentials_key_default_password (m, false)) _ e in
    let (b, e2, r2) = >>=-eq-ok (fill_key crypto credentials_key_interserver_password a) _ r1 in
    let (c, e3, r3) = >>=-eq-ok (fill_key crypto credentials_key_cluster_secret b) _ r2 in
    let f1 = fill_key-Filled crypto _ m a.0 false a.1 gen e1 in
    let f2 = fill_key-Filled crypto _ a.0 b.0 a.1 b.1 gen e2 in
    let f3 = fill_key-Filled crypto _ b.0 c.0 b.1 c.1 gen e3 in
    let same : c.0 ≡ m' = ground arith in
    rw (← same) (record {
      default_password = λ n. f1.filled (sym (f2.others _ refl) ∙ sym (f3.others _ refl) ∙ n);
      interserver_password = λ n. f2.filled (sym (f3.others _ refl) ∙ n);
      cluster_secret = f3.filled;
      username = f3.others _ refl ∙ f2.others _ refl ∙ f1.others _ refl;
      password = f3.others _ refl ∙ f2.others _ refl ∙ f1.others _ refl;
    })

derived-IsComplete :
    (crypto : Crypto) (m : Data) (changed : Bool) (named : Data)
    → AllFilled named m
    → get credentials_key_username named ≢ ""
    → get credentials_key_password named ≢ ""
    → IsComplete crypto (derive crypto (m, changed))
derived-IsComplete crypto m changed named all u p =
    let keeps = derive_keeps crypto m changed in
    let updates = derive_updates crypto m changed in
    record {
      username = λ n. u (sym (keeps.0 ∙ all.username) ∙ n);
      password = λ n. p (sym (keeps.1 ∙ all.password) ∙ n);
      default_password = λ n. all.default_password (sym keeps.2 ∙ n);
      interserver_password = λ n. all.interserver_password (sym keeps.3 ∙ n);
      cluster_secret = λ n. all.cluster_secret (sym keeps.4 ∙ n);
      digest = updates.0 ∙ ap crypto.sha256_hex (sym keeps.1);
      default_digest = updates.1 ∙ ap crypto.sha256_hex (sym keeps.2);
      applied = updates.2 ∙ sym keeps.0;
    }

put_if-named :
    (start : Data)
    → get credentials_key_username (
        put_if
          (is_empty (get credentials_key_username start))
          credentials_key_username
          app_user_name
          start)
      ≢ ""
put_if-named start n = elim (Bool-cases (is_empty (get credentials_key_username start))) [
  | inl absent ↦ ground (
    arith,
    eq_iff "admin" "",
    get-put_if (is_empty (get credentials_key_username start)) credentials_key_username
        credentials_key_username app_user_name start,
  )
  | inr there ↦ ground (
    arith,
    is_empty_iff (get credentials_key_username start),
    get-put_if (is_empty (get credentials_key_username start)) credentials_key_username
        credentials_key_username app_user_name start,
  )
]

accepted :
    (password : String) {u : Unit {0}}
    → reject_if (is_empty password) (failure "has no password") ≡ ok u
    → password ≢ ""
accepted password e = ground (arith, is_empty_iff password)

-- With a generator of passwords that never gives the empty one: whatever the Secret or the seed
-- held, a Secret that is completed has a username, a password and every generated credential, and
-- its digests and the applied username match them.
pub complete-IsComplete :
    (crypto : Crypto) (start m : Data)
    → Generates crypto
    → complete crypto start ≡ ok m
    → IsComplete crypto m
unfolding complete
complete-IsComplete crypto start m gen e =
    let named =
      put_if (is_empty (get credentials_key_username start)) credentials_key_username app_user_name
        start in
    let (u, allowed, filling) =
      >>=-eq-ok
        (reject_if (is_empty (get credentials_key_password named)) (failure "has no password")) _
        e in
    let (filled, e1, e2) = >>=-eq-ok (fill_keys crypto generated_keys (named, false)) _ filling in
    let all = fill_keys-AllFilled crypto named filled.0 filled.1 gen e1 in
    let same : derive crypto filled ≡ m = ground arith in
    rw (← same) (
      derived-IsComplete crypto filled.0 filled.1 named all (put_if-named start)
        (accepted _ allowed))
