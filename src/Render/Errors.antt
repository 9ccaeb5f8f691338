-- ===== src/Render/Errors.antt =====
-- When rendering a CHI fails, and with which error: buildCHIWired of internal/provider/provider.go.
use provider_altinity_clickh.Prelude.{
  ℕ, ◌≡◌, refl, ap, ◌↔◌, ◌⊎◌, inl, inr, String, Option, some, none, List, ◌∷◌, arith, Bool-cases,
}
use provider_altinity_clickh.Prelude.Text.{trim_space, is_empty, is_empty_iff}
use provider_altinity_clickh.Image.Found.{HasImage, resolve_image_iff}
use provider_altinity_clickh.Prelude.Result.{Error, Result, ok, err}
use provider_altinity_clickh.Common.{component_engine}
use provider_altinity_clickh.Operator.{Chi, Settings}
use provider_altinity_clickh.Instance.{Instance, ComponentSpec, engine_of, parameters_of}
use provider_altinity_clickh.Cluster.{
  Read, found, missing, failed, Exec, lift, ◌>>=◌, Api, History, read, secret_kind, optional_result,
  continue, lift, pure, ◌>>=◌,
}
use provider_altinity_clickh.Cluster.Secret.{Data}
use provider_altinity_clickh.Runtime.{Runtime}
use provider_altinity_clickh.Rollout.{credentials_secret_name}
use provider_altinity_clickh.Image.{resolve_image}
use provider_altinity_clickh.Keeper.{KeeperWiring}
use provider_altinity_clickh.Render.{
  user_settings_from, prometheus_settings, resolve_engine_settings, credentials_for_chi,
  chi_credentials,
}
use provider_altinity_clickh.Render.Chi.{render_chi, build_chi_wired}

module _ (rt : Runtime) (instance_ : Instance) (n : ℕ) (wiring : KeeperWiring) (api : Api)
    (h : History) where
  abbrev pub secret_name : String
  secret_name = credentials_secret_name instance_.name

  -- The four ways in which it ends: on the image, on the settings, on the Secret, or with the CHI.
  abbrev pub Ends :
      Result String → Result Settings → Result (Option Data) → Result Chi × History → Type 0
  Ends image settings secret r =
      ((e : Error) × (image ≡ err e) × (r ≡ (err e, h)))
      ⊎ ((i : String) × (e : Error) × (image ≡ ok i) × (settings ≡ err e) × (r ≡ (err e, h)))
      ⊎ ((i : String) × (s : Settings) × (e : Error) × (image ≡ ok i)
          × (settings ≡ ok s)
          × (secret ≡ err e)
          × (r ≡ (err e, read secret_kind secret_name ∷ h)))
      ⊎ ((i : String) × (s : Settings) × (d : Option Data) × (image ≡ ok i)
          × (settings ≡ ok s)
          × (secret ≡ ok d)
          × (r ≡ (
            ok (render_chi rt instance_ n wiring i s (chi_credentials d)),
            read secret_kind secret_name ∷ h,
          )))

  abbrev after_read : History
  after_read = read secret_kind secret_name ∷ h

  -- What the read of the credentials leaves.
  stage : String → Settings → Result (Option Data) → Result Chi × History
  stage i s (err e) = (err e, after_read)
  stage i s (ok d) = (ok (render_chi rt instance_ n wiring i s (chi_credentials d)), after_read)

  then_stage :
      (i : String) (s : Settings) (secret : Result (Option Data))
      → let r = continue secret (λ d. pure (chi_credentials d)) api after_read in
        continue r.0 (λ c. pure (render_chi rt instance_ n wiring i s c)) api r.1 ≡ stage i s secret
  unfolding stage
  then_stage i s (err e) = refl
  then_stage i s (ok d) = refl

  ends :
      (image : Result String) (settings : Result Settings) (secret : Result (Option Data))
      (rest : String → Settings → Exec Chi)
      → ((i : String) (s : Settings) → rest i s api h ≡ stage i s secret)
      → Ends image settings secret (continue image (λ i. lift settings >>= λ s. rest i s) api h)
  unfolding stage
  ends (err e) settings secret rest q = inl (e, refl, refl)
  ends (ok i) (err e) secret rest q = inr (inl (i, e, refl, refl, refl))
  ends (ok i) (ok s) (err e) rest q = inr (inr (inl (i, s, e, refl, refl, refl, q i s)))
  ends (ok i) (ok s) (ok d) rest q = inr (inr (inr (i, s, d, refl, refl, refl, q i s)))

-- Rendering a CHI fails with the error of the image where none is found, else with that of the
-- settings where they do not parse, both without a call to the cluster, else with that of reading
-- the credentials Secret. Otherwise it ends in the CHI of that image, those settings and those
-- credentials, where a missing Secret counts as none, after that one read.
pub build_chi_wired_ends :
    (rt : Runtime) (instance_ : Instance) (n : ℕ) (wiring : KeeperWiring) (api : Api) (h : History)
    → let name = credentials_secret_name instance_.name in
      Ends rt instance_ n wiring api h
        (resolve_image rt instance_ component_engine (engine_of instance_))
        (resolve_engine_settings rt (engine_of instance_))
        (optional_result name (api.read_secret h name))
        (build_chi_wired rt instance_ n wiring api h)
unfolding build_chi_wired credentials_for_chi
build_chi_wired_ends rt instance_ n wiring api h =
    let name = credentials_secret_name instance_.name in
    ends rt instance_ n wiring api h
      (resolve_image rt instance_ component_engine (engine_of instance_))
      (resolve_engine_settings rt (engine_of instance_))
      (optional_result name (api.read_secret h name))
      (λ i s. credentials_for_chi name >>= λ c. pure (render_chi rt instance_ n wiring i s c))
      (λ i s.
        then_stage rt instance_ n wiring api h i s (optional_result name (api.read_secret h name)))

-- The engine's configuration is blank, or parses.
abbrev pub HasSettings : Runtime → ComponentSpec → Type 0
HasSettings rt engine =
    let configuration = trim_space (parameters_of engine).configuration in
    (configuration ≡ "") ⊎ ((names : List String) × (rt.settings_names configuration ≡ ok names))

-- The read did not fail, though it may have found nothing.
abbrev pub Answered : Read Data → Type 0
Answered answer = ((data_ : Data) × (answer ≡ found data_)) ⊎ (answer ≡ missing)

user_settings_iff :
    (configuration : String) (parsed : Result (List String))
    → ((settings : Settings) × (user_settings_from configuration parsed ≡ ok settings))
      ↔ ((names : List String) × (parsed ≡ ok names))
unfolding user_settings_from
user_settings_iff configuration (ok names) = ((λ s. (names, refl)), (λ n. (_, refl)))
user_settings_iff configuration (err e) = ((λ (s, f). ground arith), (λ (names, f). ground arith))

resolve_engine_settings_iff :
    (rt : Runtime) (engine : ComponentSpec)
    → ((settings : Settings) × (resolve_engine_settings rt engine ≡ ok settings))
      ↔ HasSettings rt engine
unfolding resolve_engine_settings
resolve_engine_settings_iff rt engine =
    let configuration = trim_space (parameters_of engine).configuration in
    let given_ = user_settings_iff configuration (rt.settings_names configuration) in
    elim (Bool-cases (is_empty configuration)) [
      | inl e ↦
          ((λ s. inl ((is_empty_iff configuration).0 e)), (λ s. (prometheus_settings, rw e refl)))
      | inr e ↦ (
        (λ (s, f). inr (given_.0 (s, ground arith))),
        (λ s. elim s [
          | inl blank ↦ let none_ = (is_empty_iff configuration).1 blank in ground arith
          | inr parsed ↦ let (settings, f) = given_.1 parsed in (settings, rw e f)
        ]),
      )
    ]

optional_result_iff :
    (name : String) (answer : Read Data)
    → ((o : Option Data) × (optional_result name answer ≡ ok o)) ↔ Answered answer
optional_result_iff name (found data_) = ((λ o. inl (data_, refl)), (λ a. (some data_, refl)))
optional_result_iff name missing = ((λ o. inr refl), (λ a. (none, refl)))
optional_result_iff name (failed e) = ((λ (o, f). ground arith), (λ a. ground arith))

module _ (rt : Runtime) (instance_ : Instance) (n : ℕ) (wiring : KeeperWiring) (api : Api)
    (h : History) where
  ends_iff :
      (image : Result String) (settings : Result Settings) (secret : Result (Option Data))
      (r : Result Chi × History)
      → Ends rt instance_ n wiring api h image settings secret r
      → ((chi : Chi) × (r.0 ≡ ok chi)) ↔ (
          ((i : String) × (image ≡ ok i))
          × ((s : Settings) × (settings ≡ ok s))
          × ((d : Option Data) × (secret ≡ ok d)))
  ends_iff image settings secret r ending = elim ending [
    | inl (e, a, b) ↦ ((λ (chi, c). ground arith), (λ ((i, c), s, d). ground arith))
    | inr (inl (i, e, a, b, c)) ↦ ((λ (chi, f). ground arith), (λ (i', (s, f), d). ground arith))
    | inr (inr (inl (i, s, e, a, b, c, f))) ↦
        ((λ (chi, g). ground arith), (λ (i', s', (d, g)). ground arith))
    | inr (inr (inr (i, s, d, a, b, c, f))) ↦
        ((λ chi. ((i, a), (s, b), (d, c))), (λ all_. (_, ap (λ x. x.0) f)))
  ]

-- A CHI is rendered exactly when the engine names an image or the provider's catalog has one for it,
-- the engine's configuration is blank or parses, and reading the credentials Secret does not fail,
-- where a missing Secret is no failure.
pub build_chi_wired_iff :
    (rt : Runtime) (instance_ : Instance) (n : ℕ) (wiring : KeeperWiring) (api : Api) (h : History)
    → ((chi : Chi) × ((build_chi_wired rt instance_ n wiring api h).0 ≡ ok chi)) ↔ (
        HasImage rt instance_ component_engine (engine_of instance_)
        × HasSettings rt (engine_of instance_)
        × Answered (api.read_secret h (credentials_secret_name instance_.name)))
build_chi_wired_iff rt instance_ n wiring api h =
    let engine = engine_of instance_ in
    let name = credentials_secret_name instance_.name in
    let image = resolve_image_iff rt instance_ component_engine engine in
    let settings = resolve_engine_settings_iff rt engine in
    let secret = optional_result_iff name (api.read_secret h name) in
    let all_ =
      ends_iff rt instance_ n wiring api h _ _ _ _
        (build_chi_wired_ends rt instance_ n wiring api h) in
    (
      (λ chi. let (i, s, d) = all_.0 chi in (image.0 i, settings.0 s, secret.0 d)),
      (λ (i, s, d). all_.1 (image.1 i, settings.1 s, secret.1 d)),
    )
