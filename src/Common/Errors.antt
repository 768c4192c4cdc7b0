-- ===== src/Common/Errors.antt =====
-- The error codes of src/shared/errors.ts that the modelled code throws, and results.
use mathlib.Core.Path.{◌≡◌, refl}
use mathlib.Core.Logic.{◌⊎◌, inl, inr}
use mathlib.Core.Bool.{Bool, true, false}

-- A thrown `AgentError`, by its code and the place that throws it; `TypeError` is the runtime's.
pub data ErrorCode : Type 0 where
  internal_error recovery_required budget_exceeded protocol_invalid duplicate_operation : ErrorCode
  stale_state config_invalid policy_denied type_error syntax_error : ErrorCode

pub data Result {ℓ} (A : Type ℓ) : Type ℓ where
  ok : A → Result A
  err : ErrorCode → Result A

infixl 5 ◌>>=◌ ◌>>◌
abbrev pub ◌>>=◌ {ℓ κ} : {A : Type ℓ} {B : Type κ} → Result A → (A → Result B) → Result B
err fault >>= next = err fault
ok value >>= next = next value

abbrev pub ◌>>◌ {ℓ} : {B : Type ℓ} → Result (Unit {0}) → Result B → Result B
first >> second = first >>= λ _. second

-- `if (bad) throw …`.
abbrev pub fail_if : Bool → ErrorCode → Result (Unit {0})
fail_if true e = err e
fail_if false e = ok tt

-- The state after a call: a thrown error leaves it as it was.
abbrev pub after {ℓ} : {A : Type ℓ} → A → Result A → A
after a (ok b) = b
after a (err e) = a

pub Result-cases {ℓ} :
    {A : Type ℓ} (r : Result A) → ((a : A) × (r ≡ ok a)) ⊎ ((e : ErrorCode) × (r ≡ err e))
Result-cases (ok a) = inl (a, refl)
Result-cases (err e) = inr (e, refl)

-- Inversion of a successful bind.
pub >>=-eq-ok {ℓ κ} :
    {A : Type ℓ} {B : Type κ} (first : Result A) (next : A → Result B) {result : B}
    → (first >>= next) ≡ ok result
    → (value : A) × (first ≡ ok value) × (next value ≡ ok result)
>>=-eq-ok (err fault) next h = cc
>>=-eq-ok (ok value) next h = (value, refl, h)

-- A guard that lets through.
pub then_ok {ℓ} :
    {A : Type ℓ} (test : Bool) (code : ErrorCode) (m : Result A) (a : A)
    → (fail_if test code >> m) ≡ ok a
    → (test ≡ false) × (m ≡ ok a)
then_ok true code m a h = cc
then_ok false code m a h = (refl, h)
