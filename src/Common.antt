-- ===== src/Common.antt =====
-- The errors of common/errors/domain.errors.ts, and calls that may throw one of them.
pub mod HttpErrors
pub mod Texts
use vaultline.Prelude.{◌≡◌, refl, Bool, true, false, Option, none, some, ◌⊎◌, inl, inr}

-- What an error says: its message in the source, without the values put into it.
pub data Reason : Type 0 where
  not_positive_amount same_account cross_currency insufficient_funds daily_limit_exceeded : Reason
  already_reversed not_enough_to_reverse operation_not_allowed illegal_transition : Reason
  close_with_balance unknown_account no_transaction unknown_product wrong_product_type : Reason
  below_minimum_opening unsupported_currency blocked_by_fraud_rules command_not_undoable : Reason
  unknown_command nothing_to_undo unknown_draft invalid_application no_rate : Reason
  provider_unavailable unknown_loan wrong_statement : Reason
  embedding_model_unavailable retrieval_failed chat_model_failed : Reason

pub data DomainError : Type 0 where
  not_found business_rule invalid_state_transition fraud_suspected : Reason → DomainError
  dependency_unavailable : Reason → DomainError
  -- what else a call throws: an error of the database
  unexpected : DomainError

-- How a call ends: it throws, or it returns.
pub data Result {ℓ} (A : Type ℓ) : Type ℓ where
  err : (thrown : DomainError) → Result A
  ok : (returned : A) → Result A

-- The statements after a call run only if it returned.
infixl 5 ◌>>=◌ ◌>>◌
abbrev pub ◌>>=◌ {ℓ κ} :
    {A : Type ℓ} {B : Type κ} (call : Result A) (next : A → Result B) → Result B
err thrown >>= next = err thrown
ok returned >>= next = next returned

abbrev pub ◌>>◌ {ℓ} : {B : Type ℓ} (check : Result (Unit {0})) (next : Result B) → Result B
check >> next = check >>= λ passed. next

-- `if (b) throw e`
abbrev pub throw_if : Bool → DomainError → Result (Unit {0})
throw_if true e = err e
throw_if false e = ok tt

-- `if (!o) throw e`
abbrev pub or_throw {ℓ} : {A : Type ℓ} → Option A → DomainError → Result A
or_throw none e = err e
or_throw (some a) e = ok a

abbrev pub is_ok {ℓ} : {A : Type ℓ} → Result A → Bool
is_ok (ok a) = true
is_ok (err e) = false

-- To split on a call that may throw, and keep the equation.
pub Result-cases {ℓ} :
    {A : Type ℓ} (r : Result A) → ((e : DomainError) × (r ≡ err e)) ⊎ ((a : A) × (r ≡ ok a))
Result-cases (ok a) = inr (a, refl)
Result-cases (err e) = inl (e, refl)
