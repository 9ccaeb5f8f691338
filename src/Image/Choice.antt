-- ===== src/Image/Choice.antt =====
-- The image that is chosen is one.
use provider_altinity_clickh.Prelude.{◌≡◌, ◌≢◌, String, arith}
use provider_altinity_clickh.Prelude.Text.{is_empty_iff}
use provider_altinity_clickh.Prelude.Result.{Result, ok, err}
use provider_altinity_clickh.Instance.{Instance, ComponentSpec}
use provider_altinity_clickh.Runtime.{Runtime, Catalog}
use provider_altinity_clickh.Image.{resolve_image, from_catalog, catalog_image, or_default_image}

or_default_image-NonEmpty :
    (catalog : Catalog) (name given image : String)
    → or_default_image catalog name given ≡ ok image
    → image ≢ ""
unfolding or_default_image
or_default_image-NonEmpty catalog name given image e f =
    let default_ = is_empty_iff (catalog.default_image name) in
    let own = is_empty_iff given in ground arith

from_catalog-NonEmpty :
    (instance_ : Instance) (name : String) (component : ComponentSpec) (answer : Result Catalog)
    (image : String)
    → from_catalog instance_ name component answer ≡ ok image
    → image ≢ ""
unfolding from_catalog catalog_image
from_catalog-NonEmpty instance_ name component (ok catalog) image e =
    or_default_image-NonEmpty catalog name _ image e
from_catalog-NonEmpty instance_ name component (err x) image e = ground arith

-- An image that a component resolves to is never empty.
pub resolve_image-NonEmpty :
    (rt : Runtime) (instance_ : Instance) (name : String) (component : ComponentSpec)
    (image : String)
    → resolve_image rt instance_ name component ≡ ok image
    → image ≢ ""
unfolding resolve_image
resolve_image-NonEmpty rt instance_ name component image e f =
    let own = is_empty_iff component.image in
    let catalog = from_catalog-NonEmpty instance_ name component rt.provider_spec image in
    ground arith
