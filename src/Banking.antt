-- ===== src/Banking.antt =====
-- `onboardCustomer` of modules/banking/banking.facade.ts: open, deposit, activate, and the compensation
-- when that fails. Whether the database throws in the deposit or the activation is an argument; the
-- texts of the answer are left out.
mod Tests
pub mod Steps
pub mod Onboarded
pub mod Overview
use vaultline.Prelude.{ℕ, Bool, true, false, Option, none, some, String, if◌then◌else◌}
use vaultline.Prelude.Int.{ℤ, pos, ltb_ℤ}
use vaultline.Common.{Result, ok, err, DomainError, unexpected}
use vaultline.Entities.{Account, AccountType, Reference, StatusAction, plain}
use vaultline.Messaging.Events.{customer_onboarded}
use vaultline.Accounts.Factory.{TextFunctions}
use vaultline.Accounts.Service.{OpenAccountDto, NewRow, open_account, change_status, find_by_id}
use vaultline.Transactions.Ledger.Postings.{Clock, Bank, PostingResult, publish}
use vaultline.Transactions.Ledger.Operations.{PostingOptions, deposit}
use vaultline.Transactions.Ledger.Reversal.{ReversalResult, reverse}

pub record OnboardCustomerInput : Type 0 where
  pub owner_name : String
  pub type : AccountType
  pub currency : String
  pub initial_deposit_minor : ℤ
  pub product_code : Option String

-- The input as `open` takes it.
abbrev pub dto_of : OnboardCustomerInput → OpenAccountDto
dto_of input = record {
  owner_name = input.owner_name;
  type = input.type;
  currency = input.currency;
  initial_deposit_minor = some input.initial_deposit_minor;
  product_code = input.product_code;
}

abbrev pub initial_deposit : PostingOptions
initial_deposit = record { description = some (plain "Initial deposit"); type = none }

-- The reference of a deposit that was made.
abbrev pub reference_of : Result PostingResult × Bank → Result (Option Reference) × Bank
reference_of (ok r, bank) = (ok (some r.reference), bank)
reference_of (err e, bank) = (err e, bank)

-- The steps of the `try` at which the database throws, if they are reached. Their transaction is then rolled
-- back.
pub record Failures : Type 0 where
  pub deposit_fails : Bool
  pub activation_fails : Bool

abbrev pub unless_failing {ℓ} : {A : Type ℓ} → Bool → Bank → Result A × Bank → Result A × Bank
unless_failing fails bank outcome = if fails then (err unexpected, bank) else outcome

-- `if (input.initialDepositMinor > 0) depositReference = …`
unfoldable pub deposit_initial : Failures → Clock → ℕ → ℤ → Bank → Result (Option Reference) × Bank
deposit_initial failures clock id amount bank =
    if ltb_ℤ (pos 0) amount
    then reference_of
        (unless_failing failures.deposit_fails bank (deposit clock id amount initial_deposit bank))
    else (ok none, bank)

-- The account and the reference of the deposit.
abbrev pub Onboarding : Type 0
Onboarding = Account × Option Reference

-- `close`, whatever comes of it, then `throw error`.
unfoldable pub close_and_throw : ℕ → DomainError → Bank → Result Onboarding × Bank
close_and_throw id e bank = (err e, (change_status id StatusAction.close bank).1)

unfoldable pub after_reversal :
    ℕ → DomainError → Result ReversalResult × Bank → Result Onboarding × Bank
unfolding close_and_throw
after_reversal id e (ok r, bank) = close_and_throw id e bank
after_reversal id e (err thrown, bank) = (err thrown, bank)

-- The `catch`.
unfoldable pub roll_back :
    Clock → ℕ → Option Reference → DomainError → Bank → Result Onboarding × Bank
unfolding after_reversal close_and_throw
roll_back clock id none e bank = close_and_throw id e bank
roll_back clock id (some reference) e bank = after_reversal id e (reverse clock reference bank)

abbrev pub with_reference : Option Reference → Result Account × Bank → Result Onboarding × Bank
with_reference reference (ok account, bank) = (ok (account, reference), bank)
with_reference reference (err e, bank) = (err e, bank)

-- What follows the `try`: the event, and the row as it then is.
unfoldable pub welcome : ℕ → String → ℤ → Option Reference → Bank → Result Onboarding × Bank
unfolding publish
welcome id owner_name amount reference bank =
    let bank' = publish (customer_onboarded id owner_name amount) bank in
    with_reference reference (find_by_id id bank', bank')

-- After the activation.
unfoldable pub activated :
    Clock → Account → ℤ → Option Reference → Result Account × Bank → Result Onboarding × Bank
unfolding welcome roll_back
activated clock account amount reference (ok saved, bank) =
    welcome account.id account.owner_name amount reference bank
activated clock account amount reference (err e, bank) = roll_back clock account.id reference e bank

-- After the deposit.
unfoldable pub deposited :
    Failures → Clock → Account → ℤ → Result (Option Reference) × Bank → Result Onboarding × Bank
unfolding activated roll_back
deposited failures clock account amount (ok reference, bank) =
    activated clock account amount reference (
      unless_failing failures.activation_fails bank
        (change_status account.id StatusAction.activate bank))
deposited failures clock account amount (err e, bank) = roll_back clock account.id none e bank

unfoldable pub opened : Failures → Clock → ℤ → Result Account × Bank → Result Onboarding × Bank
unfolding deposited deposit_initial
opened failures clock amount (ok account, bank) =
    deposited failures clock account amount (deposit_initial failures clock account.id amount bank)
opened failures clock amount (err e, bank) = (err e, bank)

-- `onboardCustomer`
unfoldable pub onboard_customer :
    Failures
    → Clock
    → TextFunctions
    → NewRow
    → OnboardCustomerInput
    → Bank
    → Result Onboarding × Bank
unfolding opened
onboard_customer failures clock texts row input bank =
    opened failures clock input.initial_deposit_minor (open_account texts row (dto_of input) bank)
