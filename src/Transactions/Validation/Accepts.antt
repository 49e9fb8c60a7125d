-- ===== src/Transactions/Validation/Accepts.antt =====
-- What the validation chain accepts.
use vaultline.Prelude.{◌≡◌, ◌↔◌, arith, ◌≢◌, refl}
use vaultline.Prelude.Int.{pos, ◌+ℤ◌, ◌≤ℤ◌}
use vaultline.Common.{ok}
use vaultline.Entities.{closed, active}
use vaultline.Transactions.Validation.{Operation, deposit, withdrawal, ValidationContext, validate}

-- What a movement of money needs, by its direction: a positive amount; for a deposit an account
-- that is not closed; for a withdrawal an active account that holds the amount, and a daily limit
-- that has room for it.
abbrev pub IsAllowed : ValidationContext → Operation → Type 0
IsAllowed c deposit = (pos 1 ≤ℤ c.amount_minor) × (c.account.status ≢ closed)
IsAllowed c withdrawal =
    (pos 1 ≤ℤ c.amount_minor)
    × (c.account.status ≡ active)
    × (c.amount_minor ≤ℤ c.account.balance_minor)
    × (c.withdrawn_today_minor +ℤ c.amount_minor ≤ℤ c.account.daily_withdrawal_limit_minor)

validate-by :
    (o : Operation) (c : ValidationContext) → c.operation ≡ o → (validate c ≡ ok tt) ↔ IsAllowed c o
unfolding validate
validate-by deposit c e = ground arith
validate-by withdrawal c e = ground arith

-- The chain accepts a movement exactly when the amount is positive and, for a deposit, the
-- account is not closed, or, for a withdrawal, the account is active and holds the amount, and
-- what was withdrawn today and the amount are within the daily limit.
pub validate_iff : (c : ValidationContext) → (validate c ≡ ok tt) ↔ IsAllowed c c.operation
validate_iff c = validate-by c.operation c refl
