-- ===== src/Accounts/Tests.antt =====
-- The transitions of an account, and portfolios, on examples.
use vaultline.Accounts.Numbers.{AreDigits, new_account_number, new_account_number-IsIban}
use vaultline.Payments.{is_pakistani_iban}
use vaultline.Prelude.{ℕ, List, true, refl, arith, ◌≡◌, ◌↔◌}
use vaultline.Prelude.Int.{pos}
use vaultline.Common.{ok}
use vaultline.Entities.{StatusAction, frozen, closed}
use vaultline.Prelude.{[], ◌∷◌}
use vaultline.Samples.{alice, bob}
use vaultline.Accounts.Portfolio.{amount_in, totals, portfolio}
use vaultline.Accounts.Portfolio.Totals.{balance_in}
use vaultline.Accounts.Portfolio.Whole.{amount_in-portfolio}
use vaultline.Accounts.State.{next_status}
use vaultline.Accounts.State.Transitions.{IsLegal, next_status_iff}

next_status_iff_example :
    (next_status StatusAction.close (pos 0) frozen ≡ ok closed)
    ↔ IsLegal StatusAction.close (pos 0) frozen closed
next_status_iff_example = next_status_iff StatusAction.close (pos 0) frozen closed

amount_in-portfolio_example :
    amount_in "PKR" (totals (portfolio "Alice" (alice ∷ bob ∷ [])))
    ≡ balance_in "PKR" (alice ∷ bob ∷ [])
amount_in-portfolio_example = amount_in-portfolio "PKR" "Alice" (alice ∷ bob ∷ [])

abbrev sixteen : List ℕ
sixteen = 1 ∷ 2 ∷ 3 ∷ 4 ∷ 5 ∷ 6 ∷ 7 ∷ 8 ∷ 9 ∷ 0 ∷ 1 ∷ 2 ∷ 3 ∷ 4 ∷ 5 ∷ 6 ∷ []

sixteen-AreDigits : AreDigits sixteen
unfolding AreDigits
sixteen-AreDigits = ground arith

new_account_number-IsIban_example : is_pakistani_iban (new_account_number 42 sixteen) ≡ true
new_account_number-IsIban_example =
    new_account_number-IsIban 42 sixteen (omega arith) (omega arith) refl sixteen-AreDigits
