-- ===== src/Transactions/Ledger/Operations.antt =====
-- The public methods of `LedgerService` in modules/transactions/ledger.service.ts. What is thrown
-- inside `dataSource.transaction` undoes the writes of the transaction; an event is published after
-- the commit.
use vaultline.Prelude.{ℕ, Option, none, some, not, ◌==◌, leb, if◌then◌else◌, str_eq}
use vaultline.Prelude.Int.{ℤ, pos, neg, ◌+ℤ◌, ltb_ℤ}
use vaultline.Common.{
  Result, ok, err, ◌>>=◌, ◌>>◌, throw_if, business_rule, same_account, cross_currency,
}
use vaultline.Entities.{
  Account, LedgerEntryType, Database, Reference, Prefix, Description, plain, transfer_between,
}
use vaultline.Messaging.Events.{money_deposited, money_withdrawn, money_transferred}
use vaultline.Transactions.Validation.{Operation, validate}
use vaultline.Transactions.Ledger.Tables.{lock_account, withdrawn_today}
use vaultline.Transactions.Ledger.Postings.{
  Clock, Bank, next_reference, publish, PostingResult, post,
}

abbrev pub get_or : Option Description → Description → Description
get_or none d = d
get_or (some e) d = e

abbrev pub type_or : Option LedgerEntryType → LedgerEntryType → LedgerEntryType
type_or none d = d
type_or (some t) d = t

pub record PostingOptions : Type 0 where
  pub description : Option Description
  pub type : Option LedgerEntryType

abbrev pub no_options : PostingOptions
no_options = record { description = none; type = none }

-- `dataSource.transaction(…)`, then the events of a commit: the writes of a body that throws are
-- undone, and nothing is published.
unfoldable pub transaction :
    {A : Type 0} → (A → Bank → Bank) → Result (A × Bank) → Bank → Result A × Bank
transaction announce (ok (a, bank')) bank = (ok a, announce a bank')
transaction announce (err e) bank = (err e, bank)

-- The body of `deposit`'s transaction.
unfoldable pub deposit_body : Clock → ℕ → ℤ → PostingOptions → Bank → Result (PostingResult × Bank)
deposit_body clock account_id amount_minor options bank = do
  account ← lock_account account_id bank.database
  validate (record {
    operation = Operation.deposit;
    amount_minor = amount_minor;
    account = account;
    withdrawn_today_minor = pos 0;
  })
  let (reference, bank') = next_reference clock Prefix.dep bank
  let (result, _, db) =
      post clock account amount_minor (type_or options.type LedgerEntryType.deposit) reference
        (get_or options.description (plain "")) bank'.database
  ok (result, record bank' { database = db })

unfoldable pub deposit : Clock → ℕ → ℤ → PostingOptions → Bank → Result PostingResult × Bank
unfolding transaction publish
deposit clock account_id amount_minor options bank =
    transaction
      (λ r. publish (money_deposited r.account_id r.amount_minor r.balance_after_minor r.reference))
      (deposit_body clock account_id amount_minor options bank) bank

unfoldable pub withdraw_body : Clock → ℕ → ℤ → PostingOptions → Bank → Result (PostingResult × Bank)
withdraw_body clock account_id amount_minor options bank = do
  account ← lock_account account_id bank.database
  validate (record {
    operation = Operation.withdrawal;
    amount_minor = amount_minor;
    account = account;
    withdrawn_today_minor = withdrawn_today account_id clock.start_of_day bank.database.entries;
  })
  let (reference, bank') = next_reference clock Prefix.wdl bank
  let (result, _, db) =
      post clock account (neg amount_minor) (type_or options.type LedgerEntryType.withdrawal)
        reference (get_or options.description (plain "")) bank'.database
  ok (result, record bank' { database = db })

unfoldable pub withdraw : Clock → ℕ → ℤ → PostingOptions → Bank → Result PostingResult × Bank
unfolding transaction publish
withdraw clock account_id amount_minor options bank =
    transaction
      (λ r. publish (money_withdrawn r.account_id amount_minor r.balance_after_minor r.reference))
      (withdraw_body clock account_id amount_minor options bank) bank

pub record LedgerTransferInput : Type 0 where
  pub from_account_id : ℕ
  pub to_account_id : ℕ
  pub amount_minor : ℤ
  pub fee_minor : ℤ
  pub description : Option Description

pub record LedgerTransferResult : Type 0 where
  pub reference : Reference
  pub fee_minor : ℤ
  pub from_balance_after_minor : ℤ
  pub to_balance_after_minor : ℤ

-- The postings of a transfer between two locked and validated accounts.
unfoldable pub transfer_postings :
    Clock
    → LedgerTransferInput
    → Reference
    → Account
    → Account
    → Database
    → LedgerTransferResult × Database
transfer_postings clock input reference from to db =
    let description =
      get_or input.description (transfer_between from.account_number to.account_number) in
    let (_, from₁, db₁) =
      post clock from (neg input.amount_minor) LedgerEntryType.transfer_out reference description
        db in
    let (_, from₂, db₂) =
      post clock from₁ (neg input.fee_minor) LedgerEntryType.fee reference (plain "Transfer fee")
        db₁ in
    let debited : Account × Database =
      if ltb_ℤ (pos 0) input.fee_minor then (from₂, db₂) else (from₁, db₁) in
    let (credit, _, db₃) =
      post clock to input.amount_minor LedgerEntryType.transfer_in reference description
        debited.1 in
    (
      record {
        reference = reference;
        fee_minor = input.fee_minor;
        from_balance_after_minor = debited.0.balance_minor;
        to_balance_after_minor = credit.balance_after_minor;
      },
      db₃,
    )

-- The accounts of a transfer, locked in the order of their ids: the source, then the target.
unfoldable pub lock_both : ℕ → ℕ → Database → Result (Account × Account)
lock_both from_id to_id db = do
  let first_id = if leb from_id to_id then from_id else to_id
  let second_id = if leb from_id to_id then to_id else from_id
  first ← lock_account first_id db
  second ← lock_account second_id db
  ok (if first.id == from_id then first else second, if first.id == to_id then first else second)

unfoldable pub transfer_body :
    Clock → LedgerTransferInput → Reference → Bank → Result (LedgerTransferResult × Bank)
transfer_body clock input reference bank = do
  both ← lock_both input.from_account_id input.to_account_id bank.database
  let (from, to) = both
  throw_if (not (str_eq from.currency to.currency)) (business_rule cross_currency)
  validate (record {
    operation = Operation.withdrawal;
    amount_minor = input.amount_minor +ℤ input.fee_minor;
    account = from;
    withdrawn_today_minor = withdrawn_today from.id clock.start_of_day bank.database.entries;
  })
  validate (record {
    operation = Operation.deposit;
    amount_minor = input.amount_minor;
    account = to;
    withdrawn_today_minor = pos 0;
  })
  let (result, db) = transfer_postings clock input reference from to bank.database
  ok (result, record bank { database = db })

unfoldable pub transfer : Clock → LedgerTransferInput → Bank → Result LedgerTransferResult × Bank
unfolding transaction publish
transfer clock input bank =
    let (reference, bank') = next_reference clock Prefix.trf bank in
    if input.from_account_id == input.to_account_id
    then (err (business_rule same_account), bank)
    else transaction
        (λ r. publish (
          money_transferred input.from_account_id input.to_account_id input.amount_minor
            input.fee_minor reference))
        (transfer_body clock input reference bank') bank'
