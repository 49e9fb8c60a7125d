-- ===== src/Banking/Onboarded.antt =====
-- What an onboarding leaves, its compensation included.
use vaultline.Prelude.{true, ◌⊎◌, ◌≡◌}
use vaultline.Prelude.Int.{pos, ltb_ℤ}
use vaultline.Entities.{Account, active, closed}
use vaultline.Common.{Result, ok, err, unexpected}
use vaultline.Accounts.Factory.{TextFunctions}
use vaultline.Accounts.Service.{NewRow}
use vaultline.Accounts.Service.Opening.{IsOpenable, HasNone}
use vaultline.Transactions.Ledger.Postings.{Clock, Bank}
use vaultline.Transactions.Ledger.Movements.{Moves, Permits}
use vaultline.Transactions.Ledger.Movements
use vaultline.Banking.{Failures, OnboardCustomerInput, dto_of, Onboarding}
use vaultline.Banking.Steps.{brought, Holds, HasRow}

module _ (failures : Failures) (clock : Clock) (texts : TextFunctions) (row : NewRow)
    (input : OnboardCustomerInput) (bank : Bank) where
  -- A step that is reached fails.
  abbrev pub Fails : Type 0
  Fails =
      (failures.activation_fails ≡ true)
      ⊎ ((ltb_ℤ (pos 0) input.initial_deposit_minor ≡ true) × (failures.deposit_fails ≡ true))

  -- What an onboarding leaves: an active account with the first deposit; the bank as it was, where no
  -- account could be opened; or an empty account that is closed, where a later step failed.
  abbrev pub Onboards : Result Onboarding × Bank → Type 0
  Onboards (ok (a, reference), bank') =
      IsOpenable texts (dto_of input)
      × HasNone row.account_number bank.database.accounts
      × ¬ Fails
      × (a.id ≡ row.id)
      × (a.status ≡ active)
      × (a.balance_minor ≡ brought input.initial_deposit_minor)
      × Holds row.id a (brought input.initial_deposit_minor) bank bank'
  Onboards (err e, bank') =
      ((bank' ≡ bank)
        × ¬ (IsOpenable texts (dto_of input) × HasNone row.account_number bank.database.accounts))
      ⊎ (Fails
          × (e ≡ unexpected)
          × ((a : Account) × (a.status ≡ closed)
              × (a.balance_minor ≡ pos 0)
              × HasRow row.id a bank bank'))
