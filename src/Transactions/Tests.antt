-- ===== src/Transactions/Tests.antt =====
-- The validation chain, the transfer service and the invoker on examples.
use vaultline.Prelude.{◌≡◌, ◌↔◌, refl, arith, true, Option, none, some, List, [], ◌∷◌, inl}
use vaultline.Common.Texts.{Text, text}
use vaultline.Prelude.Int.{ℤ, pos, ◌-ℤ◌}
use vaultline.Common.{ok, err, is_ok, fraud_suspected, blocked_by_fraud_rules}
use vaultline.Samples.{alice, bank, clock, first_deposit}
use vaultline.Fraud.Syntax.{Value, gt, comparison}
use vaultline.Fraud.Interpreter.{interpret}
use vaultline.Fraud.Engine.{FraudRule, Triggered}
use vaultline.Transactions.Validation.{Operation, ValidationContext, validate}
use vaultline.Transactions.Validation.Accepts.{IsAllowed, validate_iff}
use vaultline.Transactions.Ledger.Operations.{transfer}
use vaultline.Transactions.Ledger.Tables.{find_account, lock_account, entries_of, reversal_exists}
use vaultline.Transactions.Ledger.Postings.{next_reference}
use vaultline.Transactions.Ledger.Reversal.{
  reverse, reverse_body, reverse_entries, lock_accounts, account_ids,
}
use vaultline.Transactions.Transfer.{
  TransferRequest, web, fraud_context, money_transfer_service, ledger_input, with_fee,
  MoneyTransferService,
}
use vaultline.Transactions.Transfer.Pipeline.{answer, screened, passed_on}
use vaultline.Transactions.Commands.{
  BankCommand, deposit_command, executed, Invoker, find_command, undo,
}

abbrev withdrawal : ValidationContext
withdrawal = record {
  operation = Operation.withdrawal;
  amount_minor = pos 700;
  account = alice;
  withdrawn_today_minor = pos 100;
}

validate_iff_example : (validate withdrawal ≡ ok tt) ↔ IsAllowed withdrawal Operation.withdrawal
validate_iff_example = validate_iff withdrawal

-- `amount > 10000`; no text is a number.
abbrev rules : List FraudRule
rules =
    record { source = []; expression = comparison (text "amount") gt (Value.num (pos 10_000)) } ∷ []

abbrev no_number : Text → Option ℤ
no_number s = none

abbrev request : ℤ → TransferRequest
request amount = record {
  from_account_id = 1;
  to_account_id = 2;
  amount_minor = amount;
  channel = web;
  description = none;
  fee_minor = none;
}

large_triggers : Triggered no_number rules (fraud_context 10 3 (request (pos 20_000)))
unfolding interpret fraud_context
large_triggers = inl refl

small_passes : ¬ (Triggered no_number rules (fraud_context 10 3 (request (pos 500))))
unfolding interpret fraud_context
small_passes = λ h. ground arith

screened_example :
    money_transfer_service no_number rules 10 3 clock (pos 50) (request (pos 20_000)) bank
    ≡ (err (fraud_suspected blocked_by_fraud_rules), bank)
screened_example =
    screened no_number rules 10 3 clock (pos 50) (request (pos 20_000)) bank large_triggers

passed_on_example :
    let (result, bank') =
      transfer clock (ledger_input (with_fee (pos 50) (request (pos 500)))) bank in
    money_transfer_service no_number rules 10 3 clock (pos 50) (request (pos 500)) bank
    ≡ (answer (pos 500) result, bank')
passed_on_example =
    passed_on no_number rules 10 3 clock (pos 50) (request (pos 500)) bank small_passes

abbrev transfers : MoneyTransferService
transfers = money_transfer_service no_number rules 10 3 clock (pos 50)

abbrev put_in : BankCommand
put_in = deposit_command 1 (pos 700) none

-- An invoker that remembers the deposit of the sample bank.
abbrev remembered : Invoker
remembered = (
  record {
    command_id = 5;
    command = put_in;
    status = executed;
    reference = some first_deposit;
    error = none;
  }
      ∷ [],
  bank,
)

undo_succeeds : is_ok (undo clock 5 remembered).0 ≡ true
unfolding undo find_command reverse reverse_body reversal_exists next_reference entries_of
    lock_accounts account_ids lock_account find_account reverse_entries ◌-ℤ◌
undo_succeeds = refl
