-- ===== src/Base/Outcome.antt =====
-- A Python call that may raise: its value, or the class of the exception.
use mathlib.Core.Path.{◌≡◌, refl}
use mathlib.Core.Logic.{◌⊎◌, inl, inr}
use mathlib.Core.Bool.{Bool, true, false}

pub data Error : Type 0 where
  value_error type_error key_error other_error : Error

pub data Result {ℓ} (A : Type ℓ) : Type ℓ where
  ok : A → Result A
  raise : Error → Result A

module _ {ℓ κ} {A : Type ℓ} {B : Type κ} where
  infixl 5 ◌>>=◌
  -- what follows a call that returned
  abbrev pub ◌>>=◌ : Result A → (A → Result B) → Result B
  raise e >>= next = raise e
  ok value >>= next = next value

infixl 5 ◌>>◌
abbrev pub ◌>>◌ {κ} : {B : Type κ} → Result (Unit {0}) → Result B → Result B
done >> next = done >>= λ _. next

-- `if not b: raise e`
abbrev pub check : Bool → Error → Result (Unit {0})
check true e = ok tt
check false e = raise e

pub Result-cases {ℓ} :
    {A : Type ℓ} (r : Result A) → ((a : A) × (r ≡ ok a)) ⊎ ((e : Error) × (r ≡ raise e))
Result-cases (ok a) = inl (a, refl)
Result-cases (raise e) = inr (e, refl)
