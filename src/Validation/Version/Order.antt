-- ===== src/Validation/Version/Order.antt =====
-- When an image is a downgrade: the comparison of segments against the lexicographic order.
use mathlib.Core.Path.{subst}
use provider_altinity_clickh.Prelude.{
  Bool-cases, ==_iff, ℕ, ◌<◌, ◌≡◌, ◌≢◌, refl, ◌↔◌, ◌⊎◌, inl, inr, String, true, Option, none, some,
  List, [], ◌∷◌, arith, ◌==◌,
}
use provider_altinity_clickh.Prelude.Int.{is_negative}
use provider_altinity_clickh.Prelude.Result.{Result, ok, err}
use provider_altinity_clickh.Runtime.{Runtime, Version}
use provider_altinity_clickh.Validation.Version.{
  image_version, compare_segments, validate_version, reject_image, reject_downgrade,
}

-- The first segments that differ, of those that both have, are in order.
pub data Older : List ℕ → List ℕ → Type 0 where
  smaller : {a b : ℕ} {as_ bs : List ℕ} → a < b → Older (a ∷ as_) (b ∷ bs)
  same : {a : ℕ} {as_ bs : List ℕ} → Older as_ bs → Older (a ∷ as_) (a ∷ bs)

older : (as_ bs : List ℕ) → is_negative (compare_segments as_ bs) ≡ true → Older as_ bs
unfolding compare_segments
older [] bs e = ground arith
older (a ∷ as_) [] e = ground arith
older (a ∷ as_) (b ∷ bs) e = elim (Bool-cases (a == b)) [
  | inl equal ↦
      subst (λ c. Older (a ∷ as_) (c ∷ bs)) ((==_iff a b).0 equal)
        (same (older as_ bs (ground arith)))
  | inr different ↦ smaller (ground arith)
]

not-Older : {as_ bs : List ℕ} → Older as_ bs → is_negative (compare_segments as_ bs) ≡ true
unfolding compare_segments
not-Older (smaller l) = ground arith
not-Older (same o) = let rest = not-Older o in ground arith

-- A version is deployed, the Instance asks for an image with a version, and that one is older.
abbrev pub Downgrade : Runtime → Option Version → Result String → Type 0
Downgrade rt current resolved =
    (c : Version) × (image : String) × (d : Version) × (current ≡ some c)
    × (resolved ≡ ok image)
    × (image_version rt image ≡ some d)
    × Older d.segments c.segments

reject_downgrade-cases :
    (rt : Runtime) (name image : String) (c : Version) (desired : Option Version)
    → image_version rt image ≡ desired
    → (reject_downgrade name c desired ≡ ok tt) ⊎ Downgrade rt (some c) (ok image)
unfolding reject_downgrade
reject_downgrade-cases rt name image c none e = inl refl
reject_downgrade-cases rt name image c (some d) e =
    elim (Bool-cases (is_negative (compare_segments d.segments c.segments))) [
      | inl negative ↦ inr (c, image, d, refl, refl, e, older d.segments c.segments negative)
      | inr not_negative ↦ inl (rw not_negative refl)
    ]

rejects :
    (rt : Runtime) (name : String) (current : Option Version) (resolved : Result String)
    → Downgrade rt current resolved
    → validate_version rt name current resolved ≢ ok tt
unfolding validate_version reject_image reject_downgrade
rejects rt name current resolved (c, image, d, e, f, g, o) accepted =
    let negative = not-Older o in ground arith

accepts :
    (rt : Runtime) (name : String) (current : Option Version) (resolved : Result String)
    → (validate_version rt name current resolved ≡ ok tt) ⊎ Downgrade rt current resolved
unfolding validate_version reject_image
accepts rt name none resolved = inl refl
accepts rt name (some c) (err x) = inl refl
accepts rt name (some c) (ok image) =
    reject_downgrade-cases rt name image c (image_version rt image) refl

-- A version transition is rejected exactly when it is a downgrade: among the segments that the
-- desired and the deployed version both have, the first that differ are in the wrong order. Versions
-- that cannot be read, and images that cannot be resolved, are let through.
pub validate_version_iff :
    (rt : Runtime) (name : String) (current : Option Version) (resolved : Result String)
    → (validate_version rt name current resolved ≡ ok tt) ↔ ¬ Downgrade rt current resolved
validate_version_iff rt name current resolved = (
  λ accepted downgrade. rejects rt name current resolved downgrade accepted,
  λ no. elim (accepts rt name current resolved) [
    | inl accepted ↦ accepted
    | inr downgrade ↦ absurd (no downgrade)
  ],
)
