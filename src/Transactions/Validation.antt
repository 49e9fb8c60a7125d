-- ===== src/Transactions/Validation.antt =====
-- modules/transactions/validation/transaction-validation.chain.ts. Amounts are whole numbers here,
-- so the test `Number.isInteger` of the first handler always passes.
pub mod Accepts
use vaultline.Prelude.{Bool, true, false, List, [], ◌∷◌, not, ◌&&◌, if◌then◌else◌}
use vaultline.Prelude.Int.{ℤ, pos, ◌+ℤ◌, ltb_ℤ, leb_ℤ}
use vaultline.Common.{
  Result, ok, ◌>>◌, throw_if, business_rule, invalid_state_transition, not_positive_amount,
  operation_not_allowed, insufficient_funds, daily_limit_exceeded,
}
use vaultline.Entities.{Account}
use vaultline.Accounts.State.{can_deposit, can_withdraw}

pub data Operation : Type 0 where
  deposit withdrawal : Operation

pub record ValidationContext : Type 0 where
  pub operation : Operation
  pub amount_minor : ℤ
  pub account : Account
  pub withdrawn_today_minor : ℤ

abbrev pub is_withdrawal : Operation → Bool
is_withdrawal deposit = false
is_withdrawal withdrawal = true

-- The classes that extend `ValidationHandler`.
pub data ValidationHandler : Type 0 where
  positive_amount account_status sufficient_funds daily_limit : ValidationHandler

-- `check` of each handler.
check : ValidationHandler → ValidationContext → Result (Unit {0})
unfolding can_deposit can_withdraw
check positive_amount c =
    throw_if (leb_ℤ c.amount_minor (pos 0)) (business_rule not_positive_amount)
check account_status c =
    let allowed =
      if is_withdrawal c.operation
      then can_withdraw c.account.status
      else can_deposit c.account.status in
    throw_if (not allowed) (invalid_state_transition operation_not_allowed)
check sufficient_funds c =
    throw_if (is_withdrawal c.operation && ltb_ℤ c.account.balance_minor c.amount_minor)
      (business_rule insufficient_funds)
check daily_limit c =
    let limit = c.account.daily_withdrawal_limit_minor in
    throw_if (is_withdrawal c.operation && ltb_ℤ limit (c.withdrawn_today_minor +ℤ c.amount_minor))
      (business_rule daily_limit_exceeded)

-- `validate` of the head: each handler checks, then hands on to the next.
validate_from : List ValidationHandler → ValidationContext → Result (Unit {0})
validate_from [] c = ok tt
validate_from (h ∷ next) c = check h c >> validate_from next c

-- `buildTransactionValidationChain`
transaction_validation_chain : List ValidationHandler
transaction_validation_chain =
    positive_amount ∷ account_status ∷ sufficient_funds ∷ daily_limit ∷ []

unfoldable pub validate : ValidationContext → Result (Unit {0})
unfolding check validate_from transaction_validation_chain
validate = validate_from transaction_validation_chain
