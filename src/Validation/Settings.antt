-- ===== src/Validation/Settings.antt =====
-- internal/provider/validate.go, validateConfiguration: settings that a user may not set, because
-- the operator or the provider manages them.
use mathlib.Core.Path.{subst}
use provider_altinity_clickh.Prelude.{
  ◌≡◌, refl, ◌↔◌, ◌⊎◌, inl, inr, All, arith, eq_iff, true, false, String, Bool, ◌||◌, List, [], ◌∷◌,
  if◌then◌else◌, any,
}
use provider_altinity_clickh.Prelude.Text.{
  str_eq, is_empty, is_empty_iff, has_prefix, join, trim_slash, trim_space, ◌<>◌,
}
use provider_altinity_clickh.Prelude.Result.{failure, wrapped, Result, ok, err}
use provider_altinity_clickh.Runtime.{Runtime}

abbrev pub owned_settings : List String
owned_settings =
    "http_port" ∷ "tcp_port" ∷ "https_port" ∷ "tcp_port_secure" ∷ "interserver_http_port"
    ∷ "interserver_https_port" ∷ "prometheus/port" ∷ "prometheus/endpoint" ∷ []

abbrev pub owned_setting_prefixes : List String
owned_setting_prefixes =
    "openSSL/" ∷ "zookeeper/" ∷ "remote_servers/" ∷ "macros/" ∷ "interserver_http_credentials/" ∷ []

-- What the walk over the names of the settings tests.
unfoldable pub is_owned : String → Bool
is_owned name =
    any (str_eq name) owned_settings
    || any (λ prefix. has_prefix name prefix || str_eq name (trim_slash prefix))
        owned_setting_prefixes

unfoldable pub owned_names : List String → List String
owned_names [] = []
owned_names (name ∷ names) =
    let rest = owned_names names in if is_owned name then name ∷ rest else rest

unfoldable pub reject_owned : List String → Result (Unit {0})
reject_owned [] = ok tt
reject_owned (name ∷ names) = err (
    failure (
      "engine configuration must not set "
      <> join ", " (name ∷ names)
      <> ": managed by the provider"))

unfoldable pub validate_names : Result (List String) → Result (Unit {0})
unfolding reject_owned
validate_names (ok names) = reject_owned (owned_names names)
validate_names (err e) = err (wrapped "engine configuration is not valid YAML" e)

unfoldable pub validate_configuration : Runtime → String → Result (Unit {0})
unfolding validate_names
validate_configuration rt configuration =
    let cfg = trim_space configuration in
    if is_empty cfg then ok tt else validate_names (rt.settings_names cfg)

-- The names that the operator or the provider manages: the ports, the Prometheus endpoint, and the
-- sections for TLS, Keeper, the cluster, its macros and the interserver credentials.
abbrev Under : String → String → Type 0
Under name section = (has_prefix name (section <> "/") ≡ true) ⊎ (name ≡ section)

abbrev OneOf : {A : Type 0} → (A → Type 0) → List A → Type 0
OneOf P [] = ⊥
OneOf P (a ∷ rest) = P a ⊎ OneOf P rest

abbrev pub Managed : String → Type 0
Managed name =
    OneOf (λ s. name ≡ s)
      ("http_port" ∷ "tcp_port" ∷ "https_port" ∷ "tcp_port_secure" ∷ "interserver_http_port"
        ∷ "interserver_https_port" ∷ "prometheus/port" ∷ "prometheus/endpoint" ∷ [])
    ⊎ OneOf (Under name) (
        "openSSL" ∷ "zookeeper" ∷ "remote_servers" ∷ "macros" ∷ "interserver_http_credentials" ∷ [])

abbrev pub NoneManaged : List String → Type 0
NoneManaged names = All (λ name. ¬ Managed name) names

not_iff : {P : Type 0} (b : Bool) → ((b ≡ true) ↔ P) → (b ≡ false) ↔ ¬ P
not_iff true p = ((λ e q. ground arith), (λ n. absurd (n (p.0 refl))))
not_iff false p = ((λ e q. let impossible = p.1 q in ground arith), (λ n. refl))

or_iff :
    {P Q : Type 0} (a b : Bool) → ((a ≡ true) ↔ P) → ((b ≡ true) ↔ Q) → ((a || b) ≡ true) ↔ (P ⊎ Q)
or_iff true b p q = ((λ e. inl (p.0 refl)), (λ s. refl))
or_iff false b p q = (
  (λ e. inr (q.0 e)),
  (λ s. elim s [ inl a ↦ let impossible = p.1 a in ground arith | inr c ↦ q.1 c ]),
)

any_iff :
    {A : Type 0} (f : A → Bool) (P : A → Type 0)
    → ((a : A) → (f a ≡ true) ↔ P a)
    → (all_ : List A) → (any f all_ ≡ true) ↔ OneOf P all_
any_iff f P each [] = ((λ e. ground arith), (λ none_. absurd none_))
any_iff f P each (a ∷ rest) = or_iff (f a) (any f rest) (each a) (any_iff f P each rest)

is_owned_iff : (name : String) → (is_owned name ≡ true) ↔ Managed name
unfolding is_owned trim_slash
is_owned_iff name =
    or_iff (any (str_eq name) owned_settings) _
      (any_iff (str_eq name) (λ s. name ≡ s) (λ s. eq_iff name s) owned_settings)
      (any_iff (λ prefix. has_prefix name prefix || str_eq name (trim_slash prefix))
        (λ prefix. (has_prefix name prefix ≡ true) ⊎ (name ≡ trim_slash prefix))
        (λ prefix.
          or_iff (has_prefix name prefix) (str_eq name (trim_slash prefix)) ((λ e. e), (λ e. e))
            (eq_iff name (trim_slash prefix)))
        owned_setting_prefixes)

not_owned_iff : (name : String) → (is_owned name ≡ false) ↔ ¬ Managed name
not_owned_iff name = not_iff (is_owned name) (is_owned_iff name)

owned_names_iff : (names : List String) → (owned_names names ≡ []) ↔ NoneManaged names
unfolding owned_names
owned_names_iff [] = ((λ e. tt), (λ a. refl))
owned_names_iff (name ∷ names) =
    let rest = owned_names_iff names in
    let here = not_owned_iff name in
    (
      (λ e. (here.0 (ground arith), rest.0 (ground arith))),
      (λ (n, a). let none_ = rest.1 a in let not_owned = here.1 n in ground arith),
    )

reject_owned_iff : (names : List String) → (reject_owned names ≡ ok tt) ↔ (names ≡ [])
unfolding reject_owned
reject_owned_iff [] = ((λ e. refl), (λ e. refl))
reject_owned_iff (name ∷ names) = ((λ e. ground arith), (λ e. ground arith))

validate_names_iff :
    (parsed : Result (List String))
    → (validate_names parsed ≡ ok tt)
      ↔ ((names : List String) × (parsed ≡ ok names) × NoneManaged names)
unfolding validate_names
validate_names_iff (ok names) =
    let rejected = reject_owned_iff (owned_names names) in
    let owned = owned_names_iff names in
    (
      (λ e. (names, refl, owned.0 (rejected.0 e))),
      (λ (others, e, a). rejected.1 (owned.1 (subst NoneManaged (ground arith) a))),
    )
validate_names_iff (err x) = ((λ e. ground arith), (λ (names, e, a). ground arith))

unless_iff :
    {P Q : Type 0} (test : Bool) (r : Result (Unit {0}))
    → ((test ≡ true) ↔ P)
    → ((r ≡ ok tt) ↔ Q)
    → ((if test then ok tt else r) ≡ ok tt) ↔ (P ⊎ Q)
unless_iff true r p q = ((λ e. inl (p.0 refl)), (λ s. refl))
unless_iff false r p q = (
  (λ e. inr (q.0 e)),
  (λ s. elim s [ inl a ↦ let impossible = p.1 a in ground arith | inr b ↦ q.1 b ]),
)

-- The engine's configuration is accepted exactly when it is blank, or it parses and sets none of the
-- eight ports and endpoints and nothing of the five sections that the provider or the operator
-- manages.
pub validate_configuration_iff :
    (rt : Runtime) (configuration : String)
    → let cfg = trim_space configuration in
      (validate_configuration rt configuration ≡ ok tt) ↔ (
        (cfg ≡ "")
        ⊎ ((names : List String) × (rt.settings_names cfg ≡ ok names) × NoneManaged names))
unfolding validate_configuration
validate_configuration_iff rt configuration =
    let cfg = trim_space configuration in
    unless_iff (is_empty cfg) (validate_names (rt.settings_names cfg)) (is_empty_iff cfg)
      (validate_names_iff (rt.settings_names cfg))
