-- ===== src/Transactions/Transfer.antt =====
-- modules/transactions/transfer/money-transfer.decorators.ts, wired as in
-- modules/transactions/transactions.module.ts. A service maps a request and the bank to a result and
-- the bank after it. The audit layer's log lines are left out.
pub mod Pipeline
use vaultline.Prelude.{
  ℕ, Bool, true, false, Option, none, some, List, [], ◌∷◌, String, str_eq, if◌then◌else◌,
}
use vaultline.Common.Texts.{Text, text, same_text}
use vaultline.Prelude.Int.{ℤ, pos, ◌+ℤ◌}
use vaultline.Common.{Result, ok, err, fraud_suspected, blocked_by_fraud_rules}
use vaultline.Entities.{Reference, Description}
use vaultline.Fraud.Syntax.{Value}
use vaultline.Fraud.Interpreter.{RuleContext}
use vaultline.Fraud.Engine.{FraudRule, FraudVerdict, evaluate}
use vaultline.Transactions.Ledger.Postings.{Clock, Bank}
use vaultline.Transactions.Ledger.Operations.{LedgerTransferInput, LedgerTransferResult, transfer}

pub data Channel : Type 0 where
  web mobile branch : Channel

pub record TransferRequest : Type 0 where
  pub from_account_id : ℕ
  pub to_account_id : ℕ
  pub amount_minor : ℤ
  pub channel : Channel
  pub description : Option Description
  pub fee_minor : Option ℤ

-- The layers that a request has passed through.
pub data Layer : Type 0 where
  audit fraud_screening fee ledger : Layer

pub record TransferResult : Type 0 where
  pub reference : Reference
  pub amount_minor : ℤ
  pub fee_minor : ℤ
  pub from_balance_after_minor : ℤ
  pub to_balance_after_minor : ℤ
  pub pipeline : List Layer

abbrev pub MoneyTransferService : Type 0
MoneyTransferService = TransferRequest → Bank → Result TransferResult × Bank

-- `request.feeMinor ?? 0`
abbrev pub fee_of : TransferRequest → ℤ
fee_of request = elim (request.fee_minor) [ none ↦ pos 0 | some n ↦ n ]

abbrev pub ledger_input : TransferRequest → LedgerTransferInput
ledger_input request = record {
  from_account_id = request.from_account_id;
  to_account_id = request.to_account_id;
  amount_minor = request.amount_minor;
  fee_minor = fee_of request;
  description = request.description;
}

abbrev pub with_layers : ℤ → LedgerTransferResult → List Layer → TransferResult
with_layers amount_minor r pipeline = record {
  reference = r.reference;
  amount_minor = amount_minor;
  fee_minor = r.fee_minor;
  from_balance_after_minor = r.from_balance_after_minor;
  to_balance_after_minor = r.to_balance_after_minor;
  pipeline = pipeline;
}

ledger_result : ℤ → Result LedgerTransferResult → Result TransferResult
ledger_result amount_minor (ok r) = ok (with_layers amount_minor r (ledger ∷ []))
ledger_result amount_minor (err e) = err e

-- `{ ...result, pipeline: [layer, ...result.pipeline] }`; what the inner service throws goes on.
add_layer : Layer → Result TransferResult → Result TransferResult
add_layer layer (ok r) = ok (record r { pipeline = layer ∷ r.pipeline })
add_layer layer (err e) = err e

-- `LedgerTransferService`
ledger_transfer_service : Clock → MoneyTransferService
unfolding ledger_result
ledger_transfer_service clock request bank =
    let (result, bank') = transfer clock (ledger_input request) bank in
    (ledger_result request.amount_minor result, bank')

abbrev pub is_branch : Channel → Bool
is_branch branch = true
is_branch _ = false

-- The fee of `TransferFeeDecorator`: branch transfers cost more.
abbrev pub fee_for : ℤ → TransferRequest → ℤ
fee_for fee_minor request = if is_branch request.channel then fee_minor +ℤ pos 10_000 else fee_minor

abbrev pub with_fee : ℤ → TransferRequest → TransferRequest
with_fee fee_minor request = record request {
  fee_minor = some (fee_of request +ℤ fee_for fee_minor request);
}

transfer_fee_decorator : MoneyTransferService → ℤ → MoneyTransferService
unfolding add_layer
transfer_fee_decorator inner fee_minor request bank =
    let (result, bank') = inner (with_fee fee_minor request) bank in (add_layer fee result, bank')

channel_name : Channel → Text
channel_name web = text "web"
channel_name mobile = text "mobile"
channel_name branch = text "branch"

-- The context of `fraud.evaluate`: the amount, the channel, the hour and the day of the week.
unfoldable pub fraud_context : ℕ → ℕ → TransferRequest → RuleContext
unfolding channel_name same_text
fraud_context hour day_of_week request variable =
    if same_text variable (text "amount")
    then some (Value.num request.amount_minor)
    else if same_text variable (text "channel")
    then some (Value.str (channel_name request.channel))
    else if same_text variable (text "hour")
    then some (Value.num (pos hour))
    else if same_text variable (text "dayOfWeek")
    then some (Value.num (pos day_of_week))
    else none

module _ (number_of_text : Text → Option ℤ) (rules : List FraudRule) (hour day_of_week : ℕ) where
  fraud_screening_decorator : MoneyTransferService → MoneyTransferService
  unfolding add_layer
  fraud_screening_decorator inner request bank =
      let (result, bank') = inner request bank in
      if (evaluate number_of_text rules (fraud_context hour day_of_week request)).suspicious
      then (err (fraud_suspected blocked_by_fraud_rules), bank)
      else (add_layer fraud_screening result, bank')

  audit_timing_decorator : MoneyTransferService → MoneyTransferService
  unfolding add_layer
  audit_timing_decorator inner request bank =
      let (result, bank') = inner request bank in (add_layer audit result, bank')

  -- The service that `transactions.module.ts` provides.
  unfoldable pub money_transfer_service : Clock → ℤ → MoneyTransferService
  unfolding audit_timing_decorator fraud_screening_decorator transfer_fee_decorator
      ledger_transfer_service
  money_transfer_service clock fee_minor =
      audit_timing_decorator (
        fraud_screening_decorator
          (transfer_fee_decorator (ledger_transfer_service clock) fee_minor))
