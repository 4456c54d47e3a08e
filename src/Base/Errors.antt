-- ===== src/Base/Errors.antt =====
-- backend/app/core/errors.py: the errors that the modelled services raise, as values, and the
-- chain of fallible steps. Messages and contexts are not modelled.
use mathlib.Core.Path.{◌≡◌, refl}
use mathlib.Core.Logic.{◌⊎◌, inl, inr}
use mathlib.Core.Bool.{Bool, true, false}
use cyber.Base.Tests.{if◌then◌else◌}

pub data Error : Type 0 where
  user_error invalid_target target_denied tenant_isolation not_found conflict authentication
        permission_denied scanner_error docker_unavailable unsafe_invocation storage_error
        circuit_open value_error integration_not_configured internal unverifiable_claim :
      Error

-- What a fallible step leaves: the error that it raised, or its value.
pub data Result {ℓ} (A : Type ℓ) : Type ℓ where
  err : (raised : Error) → Result A
  ok : (value : A) → Result A

-- `if not test: raise e`
abbrev pub guard : (test : Bool) → Error → Result (Unit {0})
guard test e = if test then ok tt else err e

module _ {ℓ κ} {A : Type ℓ} {B : Type κ} where
  infixl 6 ◌>>=◌
  -- The second step runs on the value of the first; an error ends the chain.
  abbrev pub ◌>>=◌ : Result A → (A → Result B) → Result B
  first >>= second = elim first [ ok value ↦ second value | err raised ↦ err raised ]

  -- A chain that went through has a value at every step.
  pub >>=-ok :
      (first : Result A) (second : A → Result B) {answer : B}
      → (first >>= second) ≡ ok answer
      → (value : A) × (first ≡ ok value) × (second value ≡ ok answer)
  >>=-ok (err raised) second h = cc
  >>=-ok (ok value) second h = (value, refl, h)

module _ {ℓ} {A : Type ℓ} where
  pub Result-cases : (r : Result A) → ((e : Error) × (r ≡ err e)) ⊎ ((a : A) × (r ≡ ok a))
  Result-cases (err e) = inl (e, refl)
  Result-cases (ok a) = inr (a, refl)

  -- A check that let its function go on found nothing.
  pub refuse-ok :
      (test : Bool) (e : Error) (rest : Result A) {answer : A}
      → (if test then err e else rest) ≡ ok answer
      → (test ≡ false) × (rest ≡ ok answer)
  refuse-ok true e rest h = cc
  refuse-ok false e rest h = (refl, h)

  -- A value that is given at once, or what comes of the rest.
  pub either-ok :
      (test : Bool) (a : A) (rest : Result A) {answer : A}
      → (if test then ok a else rest) ≡ ok answer
      → (a ≡ answer) ⊎ (rest ≡ ok answer)
  either-ok true a rest h = inl cc
  either-ok false a rest h = inr h

  pub ok_inj : {a b : A} → ok a ≡ ok b → a ≡ b
  ok_inj h = cc

infixl 6 ◌>>◌
-- A step that only checks, and what follows it.
abbrev pub ◌>>◌ {κ} : {B : Type κ} → Result (Unit {0}) → Result B → Result B
check >> rest = check >>= (λ passed. rest)
