-- ===== src/Errors.antt =====
-- qntyspot/errors.py: the exception classes that the modelled code raises, and results as values.
-- A message is not modelled: the class of the exception is.
use qnty_spot.Prelude.{◌≡◌, ◌⊎◌, inl, inr, refl, Bool, true, false}

-- `integrity` and `operational` are SQLite's own exceptions, where the code lets them through.
pub data Error : Type 0 where
  qnty_spot_error : Error
  canonical_form : Error
  policy_schema : Error
  state_transition : Error
  ledger_error : Error
  duplicate_economic_action : Error
  budget_exceeded : Error
  replay_divergence : Error
  schema_version : Error
  level_not_executable : Error
  chain_truth : Error
  authority_ceiling : Error
  authority_verification : Error
  session_identity : Error
  identity_error : Error
  envelope_validation : Error
  approval_contract : Error
  safe_halt_error : Error
  value_error : Error
  integrity : Error
  type_error : Error
  operational : Error

-- A value returned, or an exception raised.
pub data Result {ℓ} (A : Type ℓ) : Type ℓ where
  ok : A → Result A
  err : Error → Result A

abbrev pub is_ok {ℓ} : {A : Type ℓ} → Result A → Bool
is_ok (ok a) = true
is_ok (err e) = false

-- `if not test: raise e`
abbrev pub require : Bool → Error → Result (Unit {0})
require test e = elim test [ true ↦ ok tt | false ↦ err e ]

-- One statement after another: an exception ends the method.
infixl 5 ◌>>=◌ ◌>>◌
abbrev pub ◌>>=◌ {ℓ κ} : {A : Type ℓ} {B : Type κ} → Result A → (A → Result B) → Result B
err raised >>= next = err raised
ok value >>= next = next value

abbrev pub ◌>>◌ {κ} : {B : Type κ} → Result (Unit {0}) → Result B → Result B
first >> second = first >>= (λ done. second)

pub Result-cases {ℓ} :
    {A : Type ℓ} (r : Result A) → ((a : A) × (r ≡ ok a)) ⊎ ((e : Error) × (r ≡ err e))
Result-cases (ok a) = inl (a, refl)
Result-cases (err e) = inr (e, refl)
