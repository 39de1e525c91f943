-- ===== src/Prelude/Results.antt =====
-- Results with an error, for the (value, error) pairs of the source.
use mathlib.Core.Path.{◌≡◌, refl}
use mathlib.Core.Logic.{◌⊎◌, inl, inr}
use mathlib.Core.Bool.{Bool, true, false}
use mathlib.Core.Option.{Option, none, some}

-- A value, or the error in its place. The error type comes first, so that a section can fix it.
pub data Result {ℓ} (E : Type 0) (A : Type ℓ) : Type ℓ where
  err : E → Result E A
  ok : A → Result E A

module _ {E : Type 0} where
  -- `if test { return err }`.
  abbrev pub fail_if : Bool → E → Result E (Unit {0})
  fail_if false _ = ok tt
  fail_if true why = err why

  -- The first error stops the chain.
  infixl 5 ◌>>=◌ ◌>>◌
  abbrev pub ◌>>=◌ {ℓ κ} : {A : Type ℓ} {B : Type κ} → Result E A → (A → Result E B) → Result E B
  err why >>= next = err why
  ok x >>= next = next x

  abbrev pub ◌>>◌ {κ} : {B : Type κ} → Result E (Unit {0}) → Result E B → Result E B
  first >> second = first >>= λ _. second

  module _ {ℓ} {A : Type ℓ} where
    abbrev pub or_fail : Option A → E → Result E A
    or_fail (some x) _ = ok x
    or_fail none why = err why

    abbrev pub is_ok : Result E A → Bool
    is_ok (ok x) = true
    is_ok (err why) = false

    pub Result-cases : (r : Result E A) → ((x : A) × (r ≡ ok x)) ⊎ ((why : E) × (r ≡ err why))
    Result-cases (err why) = inr (why, refl)
    Result-cases (ok x) = inl (x, refl)
