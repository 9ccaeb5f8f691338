-- ===== src/Image/Found.antt =====
-- For which components an image is found.
use mathlib.Core.Path.{subst}
use provider_altinity_clickh.Prelude.{
  if◌then◌else◌, ◌≡◌, ◌≢◌, refl, ◌↔◌, ◌⊎◌, inl, inr, String, arith, Bool-cases, sym,
}
use provider_altinity_clickh.Prelude.Text.{is_empty, is_empty_iff}
use provider_altinity_clickh.Prelude.Result.{Result, ok, err}
use provider_altinity_clickh.Instance.{Instance, ComponentSpec}
use provider_altinity_clickh.Cluster.Secret.{Data, get}
use provider_altinity_clickh.Runtime.{Runtime, Catalog}
use provider_altinity_clickh.Image.{
  resolve_image, from_catalog, catalog_image, or_default_image, component_version, pinned,
}

module _ (catalog : Catalog) (instance_ : Instance) (name : String)
    (component : ComponentSpec) where
  -- The component's version, or else the one that the Instance's bundle pins for it.
  abbrev pub HasVersion : String → Type 0
  HasVersion version =
      (version ≢ "")
      × ((component.version ≡ version)
          ⊎ ((component.version ≡ "")
              × (catalog.bundle_name instance_ ≢ "")
              × (components : Data) × (catalog.bundle (catalog.bundle_name instance_)
                  ≡ ok components)
              × (get name components ≡ version)))

  -- The catalog has an image for the version, or a default one.
  abbrev pub Catalogued : Type 0
  Catalogued =
      (catalog.default_image name ≢ "")
      ⊎ ((version : String) × HasVersion version × (catalog.image_for_version name version ≢ ""))

-- The component names its image, or the provider's catalog has one.
abbrev pub HasImage : Runtime → Instance → String → ComponentSpec → Type 0
HasImage rt instance_ name component =
    (component.image ≢ "")
    ⊎ ((catalog : Catalog) × (rt.provider_spec ≡ ok catalog)
        × Catalogued catalog instance_ name component)

module _ (catalog : Catalog) (instance_ : Instance) (name : String)
    (component : ComponentSpec) where
  pinned-version :
      (bundle : Result Data) (version : String)
      → version ≢ ""
      → (pinned name bundle ≡ version)
        ↔ ((components : Data) × (bundle ≡ ok components) × (get name components ≡ version))
  unfolding pinned
  pinned-version (ok components) version n =
      ((λ e. (components, refl, e)), (λ (others, e, f). ground arith))
  pinned-version (err x) version n = ((λ e. absurd (n (sym e))), (λ (others, e, f). ground arith))

  component_version_iff :
      (version : String)
      → version ≢ ""
      → (component_version catalog instance_ name component ≡ version)
        ↔ HasVersion catalog instance_ name component version
  unfolding component_version
  component_version_iff version n =
      let by_bundle = pinned-version (catalog.bundle (catalog.bundle_name instance_)) version n in
      ground (arith, is_empty_iff component.version, is_empty_iff (catalog.bundle_name instance_))

  or_default_image_iff :
      (given_ : String)
      → ((image : String) × (or_default_image catalog name given_ ≡ ok image))
        ↔ ((given_ ≢ "") ⊎ (catalog.default_image name ≢ ""))
  unfolding or_default_image
  or_default_image_iff given_ = elim (Bool-cases (is_empty given_)) [
    | inr e ↦ (
      (λ found. inl (λ f. let none_ = (is_empty_iff given_).1 f in ground arith)),
      (λ s. (given_, rw e refl)),
    )
    | inl e ↦ elim (Bool-cases (is_empty (catalog.default_image name))) [
      | inr e' ↦ (
        (λ found.
            inr (λ f. let none_ = (is_empty_iff (catalog.default_image name)).1 f in ground arith)),
        (λ s. (catalog.default_image name, rw (e, e') refl)),
      )
      | inl e' ↦ (
        (λ (image, f). ground arith),
        (λ s. elim s [
          | inl n ↦ absurd (n ((is_empty_iff given_).0 e))
          | inr n ↦ absurd (n ((is_empty_iff (catalog.default_image name)).0 e'))
        ]),
      )
    ]
  ]

  abbrev version_image : String → String
  version_image version = if is_empty version then "" else catalog.image_for_version name version

  version_image-found :
      (version : String)
      → version_image version ≢ ""
      → (version ≢ "") × (catalog.image_for_version name version ≢ "")
  version_image-found version n = elim (Bool-cases (is_empty version)) [
    | inl e ↦ absurd (n (rw e refl))
    | inr e ↦ ((λ f. let none_ = (is_empty_iff version).1 f in ground arith), (λ f. n (rw e f)))
  ]

  found-version_image :
      (version : String)
      → version ≢ ""
      → catalog.image_for_version name version ≢ ""
      → version_image version ≢ ""
  found-version_image version n i f = elim (Bool-cases (is_empty version)) [
    | inl e ↦ n ((is_empty_iff version).0 e)
    | inr e ↦ i (ground arith)
  ]

  catalog_image_iff :
      ((image : String) × (catalog_image instance_ name component catalog ≡ ok image))
      ↔ Catalogued catalog instance_ name component
  unfolding catalog_image
  catalog_image_iff =
      let version = component_version catalog instance_ name component in
      let either = or_default_image_iff (version_image version) in
      (
        (λ found. elim (either.0 found) [
          | inl n ↦
              let (v, i) = version_image-found version n in
              inr (version, (component_version_iff version v).0 refl, i)
          | inr n ↦ inl n
        ]),
        (λ s. either.1 (elim s [
          | inl n ↦ inr n
          | inr (chosen, has, i) ↦
              let same = (component_version_iff chosen has.0).1 has in
              inl (rw same (found-version_image chosen has.0 i))
        ])),
      )

from_catalog_iff :
    (rt : Runtime) (instance_ : Instance) (name : String) (component : ComponentSpec)
    (spec : Result Catalog)
    → ((image : String) × (from_catalog instance_ name component spec ≡ ok image))
      ↔ ((catalog : Catalog) × (spec ≡ ok catalog) × Catalogued catalog instance_ name component)
unfolding from_catalog
from_catalog_iff rt instance_ name component (ok catalog) =
    let found = catalog_image_iff catalog instance_ name component in
    (
      (λ image. (catalog, refl, found.0 image)),
      (λ (other, e, c).
          let same : other ≡ catalog = ground arith in
          found.1 (subst (λ x. Catalogued x instance_ name component) same c)),
    )
from_catalog_iff rt instance_ name component (err x) =
    ((λ (image, e). ground arith), (λ (catalog, e, c). ground arith))

-- An image is resolved exactly for a component that has one.
pub resolve_image_iff :
    (rt : Runtime) (instance_ : Instance) (name : String) (component : ComponentSpec)
    → ((image : String) × (resolve_image rt instance_ name component ≡ ok image))
      ↔ HasImage rt instance_ name component
unfolding resolve_image
resolve_image_iff rt instance_ name component =
    let catalogued = from_catalog_iff rt instance_ name component rt.provider_spec in
    elim (Bool-cases (is_empty component.image)) [
      | inr e ↦ (
        (λ found. inl (λ f. let none_ = (is_empty_iff component.image).1 f in ground arith)),
        (λ s. (component.image, rw e refl)),
      )
      | inl e ↦ (
        (λ (image, f). inr (catalogued.0 (image, ground arith))),
        (λ s. elim s [
          | inl n ↦ absurd (n ((is_empty_iff component.image).0 e))
          | inr c ↦ let (image, f) = catalogued.1 c in (image, rw e f)
        ]),
      )
    ]
