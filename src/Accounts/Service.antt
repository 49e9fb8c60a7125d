-- ===== src/Accounts/Service.antt =====
-- `open`, `findById` and `changeStatus` of modules/accounts/accounts.service.ts, on the bank of the ledger. The id and
-- the account number that are drawn, and the time, are arguments.
pub mod Opening
use vaultline.Prelude.{
  ℕ, Bool, true, false, Option, none, some, List, [], ◌∷◌, String, str_eq, not, ◌||◌, if◌then◌else◌,
}
use vaultline.Prelude.Int.{ℤ, pos, ltb_ℤ}
use vaultline.Common.{
  Result, ok, err, ◌>>=◌, ◌>>◌, throw_if, or_throw, business_rule, not_found, unsupported_currency,
  unknown_product, unknown_account, unexpected,
}
use vaultline.Core.Currency.{is_supported}
use vaultline.Entities.{Account, AccountType, AccountStatus, StatusAction, Database}
use vaultline.Messaging.Events.{account_opened, account_status_changed}
use vaultline.Accounts.Products
use vaultline.Accounts.Products.{AccountProduct}
use vaultline.Accounts.Factory.{TextFunctions, AccountBlueprint, OpenAccountInput, open_blueprint}
use vaultline.Accounts.State.{next_status}
use vaultline.Transactions.Ledger.Tables.{find_account, save_account}
use vaultline.Transactions.Ledger.Postings.{Bank, publish}

pub record OpenAccountDto : Type 0 where
  pub owner_name : String
  pub type : AccountType
  pub currency : String
  pub initial_deposit_minor : Option ℤ
  pub product_code : Option String

-- What the database and the random numbers give a new account.
pub record NewRow : Type 0 where
  pub id : ℕ
  pub account_number : String
  pub created_at : ℕ

-- `dto.productCode ? this.catalog.get(dto.productCode) : undefined`, and the check of it. An empty code is
-- none.
unfoldable pub chosen_product : Option String → Result (Option AccountProduct)
chosen_product none = ok none
chosen_product (some code) =
    if str_eq code ""
    then ok none
    else do product ← or_throw (Products.get code) (not_found unknown_product); ok (some product)

abbrev pub deposit_or_zero : Option ℤ → ℤ
deposit_or_zero none = pos 0
deposit_or_zero (some n) = n

abbrev pub account_from : NewRow → AccountBlueprint → Account
account_from row blueprint = record {
  id = row.id;
  account_number = row.account_number;
  owner_name = blueprint.owner_name;
  type = blueprint.type;
  currency = blueprint.currency;
  product_code = blueprint.product_code;
  balance_minor = pos 0;
  daily_withdrawal_limit_minor = blueprint.daily_withdrawal_limit_minor;
  annual_interest_rate = blueprint.annual_interest_rate;
  status = blueprint.status;
  created_at = row.created_at;
}

-- `accounts.save(account)`
abbrev pub save : Account → Bank → Bank
save account bank = record bank {
  database = record (bank.database) { accounts = save_account account bank.database.accounts };
}

-- What is checked before the row is written.
unfoldable pub check_opening : TextFunctions → OpenAccountDto → Result AccountBlueprint
unfolding chosen_product
check_opening texts dto = do
  throw_if (not (is_supported texts.to_upper_case dto.currency))
      (business_rule unsupported_currency)
  product ← chosen_product dto.product_code
  open_blueprint texts dto.type (record {
    owner_name = dto.owner_name;
    currency = dto.currency;
    initial_deposit_minor = deposit_or_zero dto.initial_deposit_minor;
    product = product;
  })

-- `account_number varchar(24) NOT NULL UNIQUE`
unfoldable pub is_taken : String → List Account → Bool
is_taken number [] = false
is_taken number (a ∷ accounts) = str_eq a.account_number number || is_taken number accounts

unfoldable pub write_account : NewRow → Bank → Result AccountBlueprint → Result Account × Bank
unfolding publish is_taken
write_account row bank (err e) = (err e, bank)
write_account row bank (ok blueprint) =
    let a = account_from row blueprint in
    if is_taken row.account_number bank.database.accounts then (err unexpected, bank) else (
      ok a,
      publish (account_opened a.id a.account_number a.owner_name a.type a.currency) (save a bank),
    )

-- `open`
unfoldable pub open_account : TextFunctions → NewRow → OpenAccountDto → Bank → Result Account × Bank
unfolding write_account
open_account texts row dto bank = write_account row bank (check_opening texts dto)

-- `findById`
unfoldable pub find_by_id : ℕ → Bank → Result Account
find_by_id id bank = or_throw (find_account id bank.database.accounts) (not_found unknown_account)

unfoldable pub write_status : ℕ → Account → Bank → Result AccountStatus → Result Account × Bank
unfolding publish
write_status id account bank (err e) = (err e, bank)
write_status id account bank (ok next) =
    let saved = record account { status = next } in
    (ok saved, publish (account_status_changed id account.status next) (save saved bank))

unfoldable pub change_found : ℕ → StatusAction → Bank → Result Account → Result Account × Bank
unfolding write_status
change_found id action bank (err e) = (err e, bank)
change_found id action bank (ok account) =
    write_status id account bank (next_status action account.balance_minor account.status)

-- `changeStatus`
unfoldable pub change_status : ℕ → StatusAction → Bank → Result Account × Bank
unfolding change_found find_by_id
change_status id action bank = change_found id action bank (find_by_id id bank)
