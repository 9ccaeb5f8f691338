-- ===== src/Validation/Version.antt =====
-- internal/provider/validate.go, versions: the version in an image's tag, and the comparison that
-- rejects a downgrade. The parser of versions is a parameter.
pub mod Order
use provider_altinity_clickh.Prelude.{
  ℕ, String, Bool, true, false, Option, none, some, List, [], ◌∷◌, if◌then◌else◌, ltb, ◌==◌,
}
use provider_altinity_clickh.Prelude.Int.{ℤ, pos, minus_one, is_negative}
use provider_altinity_clickh.Prelude.Text.{
  str_eq, before_code, after_last_code, contains_code, ◌<>◌,
}
use provider_altinity_clickh.Prelude.Result.{failure, Result, ok, err, reject_if}
use provider_altinity_clickh.Operator.{Container, PodTemplate, Templates}
use provider_altinity_clickh.Runtime.{Runtime, Version}

tag_version : (String → Option Version) → Option String → Option Version
tag_version new_version none = none
tag_version new_version (some tag) = if contains_code b'/' tag then none else new_version tag

-- imageVersion: what follows the last colon, a digest left out.
unfoldable pub image_version : Runtime → String → Option Version
unfolding tag_version
image_version rt image = tag_version rt.new_version (after_last_code b':' (before_code b'@' image))

-- compareSegments: the segments that both versions have.
unfoldable pub compare_segments : List ℕ → List ℕ → ℤ
compare_segments [] bs = pos 0
compare_segments (a ∷ as_) [] = pos 0
compare_segments (a ∷ as_) (b ∷ bs) =
    let rest = compare_segments as_ bs in
    if a == b then rest else if ltb a b then minus_one else pos 1

unfoldable pub container_image : String → List Container → Option String
container_image name [] = none
container_image name (container ∷ containers) =
    let rest = container_image name containers in
    if str_eq container.name name then some container.image else rest

abbrev or_rest : Option String → String → String
or_rest none rest = rest
or_rest (some image) rest = image

unfoldable pub templates_image : String → String → List PodTemplate → String
unfolding container_image
templates_image template container [] = ""
templates_image template container (tmpl ∷ templates) =
    let rest = templates_image template container templates in
    if str_eq tmpl.name template
    then or_rest (container_image container tmpl.spec.containers) rest
    else rest

-- currentEngineImage and currentKeeperImage
unfoldable pub current_image : String → String → Option Templates → String
unfolding templates_image
current_image template container none = ""
current_image template container (some t) = templates_image template container t.pod_templates

unfoldable pub reject_downgrade : String → Version → Option Version → Result (Unit {0})
reject_downgrade name current none = ok tt
reject_downgrade name current (some desired) =
    reject_if (is_negative (compare_segments desired.segments current.segments)) (
      failure
        (name <> " cannot be downgraded from " <> current.original <> " to " <> desired.original))

-- An image that cannot be resolved is not compared: Sync reports it.
unfoldable pub reject_image : Runtime → String → Version → Result String → Result (Unit {0})
unfolding reject_downgrade
reject_image rt name current (ok image) = reject_downgrade name current (image_version rt image)
reject_image rt name current (err e) = ok tt

-- validateVersionTransition, and the end of validateKeeperTransitions
unfoldable pub validate_version :
    Runtime → String → Option Version → Result String → Result (Unit {0})
unfolding reject_image
validate_version rt name none resolved = ok tt
validate_version rt name (some current) resolved = reject_image rt name current resolved
