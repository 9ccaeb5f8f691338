-- ===== src/Prelude/Result.antt =====
-- Errors of the provider as values. A WaitError asks the runtime to requeue after some seconds;
-- `fmt.Errorf("...: %w", err)` keeps the wrapped error, which errors.As finds again.
use Prim.Native.Nat.{ℕ}
use Prim.Native.String.{String}
use mathlib.Core.Bool.{Bool, true, false}

pub data Error : Type 0 where
  wait : String → ℕ → Error
  not_found : Error
  no_match : Error
  failure : String → Error
  wrapped : String → Error → Error

pub is_wait_error : Error → Bool
is_wait_error (wait message seconds) = true
is_wait_error not_found = false
is_wait_error no_match = false
is_wait_error (failure message) = false
is_wait_error (wrapped message e) = is_wait_error e

-- What a fallible function returns: its error, or its value.
pub data Result {ℓ} (A : Type ℓ) : Type ℓ where
  err : Error → Result A
  ok : A → Result A

-- `if cond { return error }`
abbrev pub reject_if : Bool → Error → Result (Unit {0})
reject_if false problem = ok tt
reject_if true problem = err problem

-- The rest of a function, after a call that may have failed.
infixl 5 ◌>>=◌ ◌>>◌
abbrev pub ◌>>=◌ {ℓ κ} : {A : Type ℓ} {B : Type κ} → Result A → (A → Result B) → Result B
err problem >>= rest = err problem
ok value >>= rest = rest value

abbrev pub ◌>>◌ {ℓ} : {B : Type ℓ} → Result (Unit {0}) → Result B → Result B
first >> rest = first >>= λ done. rest
