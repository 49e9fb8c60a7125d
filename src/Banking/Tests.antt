-- ===== src/Banking/Tests.antt =====
-- The opening of an account and an onboarding, on the sample bank.
use vaultline.Prelude.{true, false, ◌≡◌, refl, none, some}
use vaultline.Prelude.Int.{pos}
use vaultline.Entities.{AccountType}
use vaultline.Samples.{bank}
use vaultline.Accounts.Factory.{TextFunctions}
use vaultline.Accounts.Service.{NewRow, open_account}
use vaultline.Accounts.Service.Opening.{Opens, open_account-Opens}
use vaultline.Transactions.Ledger.Tables.{find_account}
use vaultline.Banking.{Failures, OnboardCustomerInput, dto_of}

abbrev same_texts : TextFunctions
same_texts = record { trim = λ s. s; to_upper_case = λ s. s }

abbrev row : NewRow
row = record { id = 3; account_number = "PK10NBPT"; created_at = 1_010 }

abbrev carol : OnboardCustomerInput
carol = record {
  owner_name = "Carol";
  type = AccountType.savings;
  currency = "PKR";
  initial_deposit_minor = pos 150_000;
  product_code = some "BASIC_SAVER";
}

unused_id : find_account 3 bank.database.accounts ≡ none
unfolding find_account
unused_id = refl

open_account-Opens_example :
    Opens same_texts row (dto_of carol) bank (open_account same_texts row (dto_of carol) bank)
open_account-Opens_example = open_account-Opens same_texts row (dto_of carol) bank unused_id

-- The activation fails after the deposit.
abbrev no_activation : Failures
no_activation = record { deposit_fails = false; activation_fails = true }
