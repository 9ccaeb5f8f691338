-- ===== src/Image.antt =====
-- internal/provider/provider.go, resolveImage: the image of a component, by its own image, its
-- version, the version that the Instance's bundle pins for it, or the default.
pub mod Choice
pub mod Found
use provider_altinity_clickh.Prelude.{
  String, Bool, true, false, not, ◌&&◌, Option, none, some, if◌then◌else◌,
}
use provider_altinity_clickh.Prelude.Text.{is_empty, ◌<>◌}
use provider_altinity_clickh.Prelude.Result.{Error, failure, wrapped, Result, ok, err}
use provider_altinity_clickh.Instance.{Instance, ComponentSpec}
use provider_altinity_clickh.Cluster.{wrap_error}
use provider_altinity_clickh.Cluster.Secret.{Data, get}
use provider_altinity_clickh.Runtime.{Runtime, Catalog}

-- A bundle that does not resolve pins no version.
unfoldable pub pinned : String → Result Data → String
pinned name (ok components) = get name components
pinned name (err e) = ""

unfoldable pub component_version : Catalog → Instance → String → ComponentSpec → String
unfolding pinned
component_version catalog instance_ name component =
    let bundle_name = catalog.bundle_name instance_ in
    if not (is_empty component.version)
    then component.version
    else if is_empty bundle_name
    then ""
    else pinned name (catalog.bundle bundle_name)

unfoldable pub or_default_image : Catalog → String → String → Result String
or_default_image catalog name image =
    let default_ = catalog.default_image name in
    if not (is_empty image)
    then ok image
    else if not (is_empty default_)
    then ok default_
    else err (failure ("no image found for the " <> name <> " component"))

unfoldable pub catalog_image : Instance → String → ComponentSpec → Catalog → Result String
unfolding component_version or_default_image
catalog_image instance_ name component catalog =
    let version = component_version catalog instance_ name component in
    or_default_image catalog name
      (if is_empty version then "" else catalog.image_for_version name version)

unfoldable pub from_catalog : Instance → String → ComponentSpec → Result Catalog → Result String
unfolding catalog_image
from_catalog instance_ name component (ok catalog) = catalog_image instance_ name component catalog
from_catalog instance_ name component (err e) = err (wrapped "get provider spec" e)

unfoldable pub resolve_image : Runtime → Instance → String → ComponentSpec → Result String
unfolding from_catalog
resolve_image rt instance_ name component =
    if is_empty component.image
    then from_catalog instance_ name component rt.provider_spec
    else ok component.image
