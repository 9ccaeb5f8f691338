-- ===== src/Cluster/Secret.antt =====
-- The data of a Secret, a Go map from keys to bytes: reading a missing key gives the empty value.
use provider_altinity_clickh.Prelude.{
  String, ◌≡◌, refl, Option, none, some, List, [], ◌∷◌, arith, if◌then◌else◌, eq_iff,
}
use provider_altinity_clickh.Prelude.Text.{str_eq}

abbrev pub Data : Type 0
Data = List (String × String)

unfoldable pub lookup : String → Data → Option String
lookup key [] = none
lookup key ((k, v) ∷ m) = if str_eq k key then some v else lookup key m

unfoldable pub value_or_empty : Option String → String
value_or_empty none = ""
value_or_empty (some v) = v

-- `data[key]`
unfoldable pub get : String → Data → String
unfolding lookup value_or_empty
get key m = value_or_empty (lookup key m)

-- `data[key] = value`
unfoldable pub put : String → String → Data → Data
put key value [] = (key, value) ∷ []
put key value ((k, v) ∷ m) = if str_eq k key then (k, value) ∷ m else (k, v) ∷ put key value m

pub lookup-put :
    (key j value : String) (m : Data)
    → lookup j (put key value m) ≡ (if str_eq key j then some value else lookup j m)
unfolding lookup put
lookup-put key j value [] = refl
lookup-put key j value ((k, v) ∷ m) =
    ground (arith, eq_iff key j, eq_iff k key, eq_iff k j, lookup-put key j value m)

pub get-put :
    (key j value : String) (m : Data)
    → get j (put key value m) ≡ (if str_eq key j then value else get j m)
unfolding get
get-put key j value m = ground (arith, lookup-put key j value m)
