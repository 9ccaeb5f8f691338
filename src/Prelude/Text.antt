-- ===== src/Prelude/Text.antt =====
-- Text as the Go standard library treats it where the provider uses it: equality, EqualFold,
-- HasSuffix, concatenation and decimal numbers.
use Prim.Native.Nat.{ℕ, ◌+◌}
use Prim.Native.Char.{code}
use Prim.Native.String
use Prim.Native.String.{String}
use mathlib.Core.Bool.{Bool, true, false, ◌&&◌, ◌||◌}
use mathlib.Core.Path.{◌≡◌, refl, ap}
use mathlib.Core.Logic.{◌↔◌}
use mathlib.Core.Option.{Option, none, some}
use mathlib.Core.List.{List, [], ◌∷◌, map, reverse}
use text.Mathlib.Text.{◌==◌ as text_eq}
use provider_altinity_clickh.Prelude.Tests.{leb, ◌==◌, if◌then◌else◌}

abbrev pub str_eq : String → String → Bool
str_eq = text_eq

infixr 65 ◌<>◌
abbrev pub ◌<>◌ : String → String → String
◌<>◌ = String.◌++◌

-- The code points of a text: its bytes, if it is ASCII.
abbrev pub codes : String → List ℕ
codes String.[] = []
codes (String.◌∷◌ c s) = code c ∷ codes s

abbrev pub is_empty : String → Bool
is_empty String.[] = true
is_empty (String.◌∷◌ c s) = false

abbrev pub same_codes : List ℕ → List ℕ → Bool
same_codes [] [] = true
same_codes (a ∷ xs) (b ∷ ys) = a == b && same_codes xs ys
same_codes _ _ = false

pub to_lower : ℕ → ℕ
to_lower c = if leb b'A' c && leb c b'Z' then c + 32 else c

-- strings.EqualFold against a constant without "k" and "s", the ASCII letters with a fold outside
-- ASCII: there the simple folding of Unicode is the ASCII one.
unfoldable pub equal_fold : String → String → Bool
unfolding to_lower
equal_fold s t = same_codes (map to_lower (codes s)) (map to_lower (codes t))

abbrev pub is_prefix_of : List ℕ → List ℕ → Bool
is_prefix_of [] ys = true
is_prefix_of (a ∷ xs) [] = false
is_prefix_of (a ∷ xs) (b ∷ ys) = a == b && is_prefix_of xs ys

-- strings.HasSuffix
unfoldable pub has_suffix : String → String → Bool
has_suffix s t = is_prefix_of (reverse (codes t)) (reverse (codes s))

-- strings.Trim(s, "-_."), and the first 60 bytes of a text
abbrev is_separator : ℕ → Bool
is_separator c = c == b'-' || c == b'_' || c == b'.'

trim_start : String → String
trim_start String.[] = String.[]
trim_start (String.◌∷◌ c s) =
    let rest = trim_start s in if is_separator (code c) then rest else String.◌∷◌ c s

trim_end : String → String
trim_end String.[] = String.[]
trim_end (String.◌∷◌ c s) =
    let rest = trim_end s in
    if is_empty rest && is_separator (code c) then String.[] else String.◌∷◌ c rest

unfoldable pub trim_separators : String → String
unfolding trim_start trim_end
trim_separators s = trim_end (trim_start s)

-- strings.TrimSpace on ASCII text.
abbrev is_space : ℕ → Bool
is_space c = c == 32 || (leb 9 c && leb c 13)

trim_space_start : String → String
trim_space_start String.[] = String.[]
trim_space_start (String.◌∷◌ c s) =
    let rest = trim_space_start s in if is_space (code c) then rest else String.◌∷◌ c s

trim_space_end : String → String
trim_space_end String.[] = String.[]
trim_space_end (String.◌∷◌ c s) =
    let rest = trim_space_end s in
    if is_empty rest && is_space (code c) then String.[] else String.◌∷◌ c rest

unfoldable pub trim_space : String → String
unfolding trim_space_start trim_space_end
trim_space s = trim_space_end (trim_space_start s)

-- What precedes the first occurrence of a code point: strings.Index and a slice up to it.
unfoldable pub before_code : ℕ → String → String
before_code c String.[] = String.[]
before_code c (String.◌∷◌ a s) =
    let rest = before_code c s in if code a == c then String.[] else String.◌∷◌ a rest

-- What follows the last occurrence of a code point, if there is one: strings.LastIndex.
abbrev or_tail : Option String → Bool → String → Option String
or_tail (some t) is_last s = some t
or_tail none true s = some s
or_tail none false s = none

unfoldable pub after_last_code : ℕ → String → Option String
after_last_code c String.[] = none
after_last_code c (String.◌∷◌ a s) = or_tail (after_last_code c s) (code a == c) s

abbrev has_code : ℕ → List ℕ → Bool
has_code c [] = false
has_code c (a ∷ s) = a == c || has_code c s

-- strings.Contains of one character, strings.HasPrefix, strings.Join, and strings.TrimSuffix of "/"
unfoldable pub contains_code : ℕ → String → Bool
contains_code c s = has_code c (codes s)

unfoldable pub has_prefix : String → String → Bool
has_prefix s t = is_prefix_of (codes t) (codes s)

unfoldable pub join : String → List String → String
join separator [] = ""
join separator (s ∷ []) = s
join separator (s ∷ t ∷ ss) = s <> separator <> join separator (t ∷ ss)

unfoldable pub trim_slash : String → String
trim_slash String.[] = String.[]
trim_slash (String.◌∷◌ c s) =
    let rest = trim_slash s in if is_empty s && code c == b'/' then String.[] else String.◌∷◌ c rest

pub is_empty_iff : (s : String) → (is_empty s ≡ true) ↔ (s ≡ "")
is_empty_iff String.[] = ((λ e. refl), (λ e. refl))
is_empty_iff (String.◌∷◌ c s) = ((λ e. cc), (λ e. ap is_empty e))
