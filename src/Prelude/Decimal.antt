-- ===== src/Prelude/Decimal.antt =====
-- strconv.Itoa and strconv.Atoi of a 64-bit int. Atoi gives 0 for a text that is no number, and the
-- nearest int for a number out of range.
use Prim.Native.Nat.{ℕ, zero, suc, ◌+◌, ◌-◌, ◌*◌, ◌/◌, ◌%◌, ◌<◌, ◌≤◌}
use Prim.Native.Char.{Char, code}
use Prim.Native.String.{String}
use mathlib.Core.Path.{◌≡◌, refl, ◌∙◌, ap}
use mathlib.Core.Logic.{inl, inr}
use mathlib.Core.Bool.{◌&&◌}
use native.Mathlib.Omega.{arith}
use provider_altinity_clickh.Prelude.Tests.{leb, ◌==◌, if◌then◌else◌, Bool-cases}
use provider_altinity_clickh.Prelude.Int.{ℤ, pos, negsuc}

abbrev pub max_int : ℕ
max_int = 9223372036854775807

abbrev uint_limit : ℕ
uint_limit = 18446744073709551616

digit : ℕ → Char
digit zero = "0"
digit (suc zero) = "1"
digit (suc (suc zero)) = "2"
digit (suc (suc (suc zero))) = "3"
digit (suc (suc (suc (suc zero)))) = "4"
digit (suc (suc (suc (suc (suc zero))))) = "5"
digit (suc (suc (suc (suc (suc (suc zero)))))) = "6"
digit (suc (suc (suc (suc (suc (suc (suc zero))))))) = "7"
digit (suc (suc (suc (suc (suc (suc (suc (suc zero)))))))) = "8"
digit (suc (suc (suc (suc (suc (suc (suc (suc (suc n))))))))) = "9"

digits_before : ℕ → ℕ → String → String
digits_before zero n acc = acc
digits_before (suc fuel) n acc =
    let longer = String.◌∷◌ (digit (n % 10)) acc in
    let rest = digits_before fuel (n / 10) longer in if n / 10 == 0 then longer else rest

-- One digit more than `n` is enough fuel.
digits_of : ℕ → String
unfolding digits_before digit
digits_of n = digits_before (suc n) n ""

unfoldable pub itoa : ℤ → String
unfolding digits_of
itoa (pos n) = digits_of n
itoa (negsuc n) = String.◌∷◌ "-" (digits_of (n + 1))

pub data Parsed : Type 0 where
  syntax range : Parsed
  value : ℕ → Parsed

parse_digits : ℕ → String → Parsed
parse_digits acc String.[] = value acc
parse_digits acc (String.◌∷◌ c s) =
    let more = acc * 10 + (code c - 48) in
    let rest = parse_digits more s in
    if leb 48 (code c) && leb (code c) 57
    then (if leb uint_limit more then range else rest)
    else syntax

parse_number : String → Parsed
unfolding parse_digits
parse_number String.[] = syntax
parse_number (String.◌∷◌ c s) = parse_digits 0 (String.◌∷◌ c s)

abbrev clamp_positive : Parsed → ℤ
clamp_positive syntax = pos 0
clamp_positive range = pos max_int
clamp_positive (value n) = if leb n max_int then pos n else pos max_int

abbrev clamp_negative : Parsed → ℤ
clamp_negative syntax = pos 0
clamp_negative range = negsuc max_int
clamp_negative (value zero) = pos 0
clamp_negative (value (suc n)) = if leb n max_int then negsuc n else negsuc max_int

unfoldable pub atoi : String → ℤ
unfolding parse_number
atoi String.[] = pos 0
atoi (String.◌∷◌ c s) =
    if code c == b'-'
    then clamp_negative (parse_number s)
    else if code c == b'+'
    then clamp_positive (parse_number s)
    else clamp_positive (parse_number (String.◌∷◌ c s))

-- `n + 1` on an int
unfoldable pub increment : ℤ → ℤ
increment (pos n) = if n == max_int then negsuc max_int else pos (n + 1)
increment (negsuc zero) = pos 0
increment (negsuc (suc n)) = negsuc n

code-digit : (n : ℕ) → n < 10 → code (digit n) ≡ 48 + n
unfolding digit
code-digit zero h = refl
code-digit (suc zero) h = refl
code-digit (suc (suc zero)) h = refl
code-digit (suc (suc (suc zero))) h = refl
code-digit (suc (suc (suc (suc zero)))) h = refl
code-digit (suc (suc (suc (suc (suc zero))))) h = refl
code-digit (suc (suc (suc (suc (suc (suc zero)))))) h = refl
code-digit (suc (suc (suc (suc (suc (suc (suc zero))))))) h = refl
code-digit (suc (suc (suc (suc (suc (suc (suc (suc zero)))))))) h = refl
code-digit (suc (suc (suc (suc (suc (suc (suc (suc (suc n))))))))) h = omega arith

parse_digits-cons :
    (acc d : ℕ) (s : String)
    → d < 10
    → acc * 10 + d < uint_limit
    → parse_digits acc (String.◌∷◌ (digit d) s) ≡ parse_digits (acc * 10 + d) s
unfolding parse_digits
parse_digits-cons acc d s h l = ground (arith, code-digit d h)

parse_digits-digits_before :
    (fuel n : ℕ) (acc : String)
    → n < fuel
    → n < uint_limit
    → parse_digits 0 (digits_before fuel n acc) ≡ parse_digits n acc
unfolding digits_before
parse_digits-digits_before zero n acc h l = absurd (omega arith)
parse_digits-digits_before (suc fuel) n acc h l = elim (Bool-cases (n / 10 == 0)) [
  | inl last ↦ rw last (
      parse_digits-cons 0 (n % 10) acc (omega arith) (omega arith)
      ∙ ap (λ m. parse_digits m acc) (ground arith))
  | inr more ↦ rw more (
      parse_digits-digits_before fuel (n / 10) (String.◌∷◌ (digit (n % 10)) acc) (ground arith)
        (omega arith)
      ∙ parse_digits-cons (n / 10) (n % 10) acc (omega arith) (omega arith)
      ∙ ap (λ m. parse_digits m acc) (omega arith))
]

-- The text of a number never begins with a sign.
data Headed : String → Type 0 where
  headed : (d : ℕ) (s : String) → d < 10 → Headed (String.◌∷◌ (digit d) s)

digits_before-Headed : (fuel n : ℕ) (acc : String) → n < fuel → Headed (digits_before fuel n acc)
unfolding digits_before
digits_before-Headed zero n acc h = absurd (omega arith)
digits_before-Headed (suc fuel) n acc h = elim (Bool-cases (n / 10 == 0)) [
  | inl last ↦ rw last (headed (n % 10) acc (omega arith))
  | inr more ↦ rw more (digits_before-Headed fuel (n / 10) _ (ground arith))
]

atoi-Headed :
    (s : String) (n : ℕ) → Headed s → n ≤ max_int → parse_digits 0 s ≡ value n → atoi s ≡ pos n
unfolding atoi
atoi-Headed _ n (headed d s h) l e = ground (arith, code-digit d h)

-- A counter below the largest int is read back as it was written.
pub atoi-itoa : (n : ℕ) → n ≤ max_int → atoi (itoa (pos n)) ≡ pos n
unfolding itoa parse_digits
atoi-itoa n h =
    atoi-Headed _ n (digits_before-Headed (suc n) n "" (omega arith)) h
      (parse_digits-digits_before (suc n) n "" (omega arith) (omega arith))

atoi_tests :
    (atoi "9" ≡ pos 9) × (atoi "-12" ≡ negsuc 11) × (atoi "1x" ≡ pos 0) × (itoa (pos 120) ≡ "120")
unfolding atoi itoa
atoi_tests = (refl, refl, refl, refl)
