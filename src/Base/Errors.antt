-- ===== src/Base/Errors.antt =====
-- errors.py: what an operation raises, and the chaining of operations that may raise.
use Prim.Native.String.{String}
use mathlib.Core.Path.{◌≡◌, refl}
use mathlib.Core.Logic.{◌⊎◌, inl, inr}
use mathlib.Core.Bool.{Bool, true, false}
use mathlib.Core.Option.{Option, none, some}

-- `integrity` is sqlite3.IntegrityError, a violated constraint of the schema; `crash` is any
-- exception that no caller expects, such as a subscript of None.
pub data Error : Type 0 where
  validation concurrency delivery : String → Error
  not_found auth_required authentication authorization rate_limit : String → Error
  integrity crash : Error

-- What a call gives: an exception, or its value.
pub data Result {ℓ} (A : Type ℓ) : Type ℓ where
  err : Error → Result A
  ok : A → Result A

module _ {ℓ} {A : Type ℓ} where
  -- `if row is None: raise error`
  abbrev pub require : Option A → Error → Result A
  require (some row) raised = ok row
  require none raised = err raised

  abbrev pub is_ok : Result A → Bool
  is_ok (err raised) = false
  is_ok (ok value) = true

  pub Result-cases : (r : Result A) → ((a : A) × (r ≡ ok a)) ⊎ ((e : Error) × (r ≡ err e))
  Result-cases (err raised) = inr (raised, refl)
  Result-cases (ok value) = inl (value, refl)

-- `if bad: raise error`
abbrev pub guard : Bool → Error → Result (Unit {0})
guard true raised = err raised
guard false raised = ok tt

module _ {ℓ κ} {A : Type ℓ} {B : Type κ} where
  infixl 10 ◌>>=◌
  -- the first call, and with its value the rest
  abbrev pub ◌>>=◌ : Result A → (A → Result B) → Result B
  err raised >>= rest = err raised
  ok value >>= rest = rest value

module _ {ℓ} {B : Type ℓ} where
  infixl 10 ◌>>◌
  -- a check, and then the rest
  abbrev pub ◌>>◌ : Result (Unit {0}) → Result B → Result B
  check >> rest = check >>= (λ done. rest)

-- What a chain of calls that succeeds says of its parts.
module _ {ℓ κ} {A : Type ℓ} {B : Type κ} where
  pub >>=-ok :
      (first : Result A) (rest : A → Result B) {b : B}
      → (first >>= rest) ≡ ok b
      → (a : A) × (first ≡ ok a) × (rest a ≡ ok b)
  >>=-ok (err raised) rest h = cc
  >>=-ok (ok value) rest h = (value, refl, h)

module _ {ℓ} {B : Type ℓ} where
  pub guard-ok :
      (bad : Bool) (raised : Error) (rest : Result B) {b : B}
      → (guard bad raised >> rest) ≡ ok b
      → (bad ≡ false) × (rest ≡ ok b)
  guard-ok true raised rest h = cc
  guard-ok false raised rest h = (refl, h)

  pub require-ok :
      (row : Option B) (raised : Error) {b : B} → require row raised ≡ ok b → row ≡ some b
  require-ok none raised h = cc
  require-ok (some row) raised h = cc
