-- ===== src/Transactions/Transfer/Pipeline.antt =====
-- What the wired transfer service does with a request.
use vaultline.Common.Texts.{Text}
use vaultline.Prelude.{
  ℕ, ◌≡◌, refl, ap, arith, if◌then◌else◌, none, some, Option, List, [], ◌∷◌, Bool-cases, inl, inr,
}
use vaultline.Prelude.Int.{ℤ, pos, ◌+ℤ◌}
use vaultline.Common.{Result, ok, err, Result-cases, fraud_suspected, blocked_by_fraud_rules}
use vaultline.Fraud.Engine.{FraudRule, evaluate, Triggered, suspicious_iff}
use vaultline.Transactions.Ledger.Postings.{Clock, Bank}
use vaultline.Transactions.Ledger.Operations.{LedgerTransferInput, LedgerTransferResult, transfer}
use vaultline.Transactions.Transfer.{
  TransferRequest, TransferResult, audit, fraud_screening, fee, ledger, with_fee, Channel, web,
  mobile, branch, is_branch, ledger_input, fraud_context, money_transfer_service,
}

-- The ledger's answer, as the caller of the service sees it.
abbrev pub answer : ℤ → Result LedgerTransferResult → Result TransferResult
answer amount (ok r) = ok (record {
  reference = r.reference;
  amount_minor = amount;
  fee_minor = r.fee_minor;
  from_balance_after_minor = r.from_balance_after_minor;
  to_balance_after_minor = r.to_balance_after_minor;
  pipeline = audit ∷ fraud_screening ∷ fee ∷ ledger ∷ [];
})
answer amount (err e) = err e

-- What each channel adds to the fee that a request has.
abbrev pub charged : ℤ → Option ℤ → Channel → ℤ
charged fee_minor none web = pos 0 +ℤ fee_minor
charged fee_minor none mobile = pos 0 +ℤ fee_minor
charged fee_minor none branch = pos 0 +ℤ (fee_minor +ℤ pos 10_000)
charged fee_minor (some given) web = given +ℤ fee_minor
charged fee_minor (some given) mobile = given +ℤ fee_minor
charged fee_minor (some given) branch = given +ℤ (fee_minor +ℤ pos 10_000)

fee_of-charged :
    (fee_minor : ℤ) (given : Option ℤ) (channel : Channel)
    → elim given [ none ↦ pos 0 | some n ↦ n ]
        +ℤ (if is_branch channel then fee_minor +ℤ pos 10_000 else fee_minor)
      ≡ charged fee_minor given channel
fee_of-charged fee_minor given channel = ground arith

module _ (number_of_text : Text → Option ℤ) (rules : List FraudRule) (hour day_of_week : ℕ)
    (clock : Clock) (fee_minor : ℤ) (request : TransferRequest) (bank : Bank) where
  -- A request that triggers a fraud rule is refused as suspected fraud, and the bank is
  -- untouched.
  pub screened :
      Triggered number_of_text rules (fraud_context hour day_of_week request)
      → money_transfer_service number_of_text rules hour day_of_week clock fee_minor request bank
        ≡ (err (fraud_suspected blocked_by_fraud_rules), bank)
  unfolding money_transfer_service
  screened triggered =
      rw
        ((suspicious_iff number_of_text rules (fraud_context hour day_of_week request)).1 triggered)

  abbrev pub asked : LedgerTransferInput
  asked = record {
    from_account_id = request.from_account_id;
    to_account_id = request.to_account_id;
    amount_minor = request.amount_minor;
    fee_minor = charged fee_minor request.fee_minor request.channel;
    description = request.description;
  }

  asked-input : ledger_input (with_fee fee_minor request) ≡ asked
  asked-input =
      ap (λ n. record asked { fee_minor = n })
        (fee_of-charged fee_minor request.fee_minor request.channel)

  -- A request that triggers no fraud rule has the outcome of the ledger's transfer between the same
  -- accounts, of the same amount and with the same description, where the configured fee, and 100 rupees
  -- more at a branch, are added to the fee of the request, or to none: the ledger's bank, its error unchanged,
  -- or its result with the four layers in their order.
  pub passed_on :
      ¬ (Triggered number_of_text rules (fraud_context hour day_of_week request))
      → let (result, bank') = transfer clock asked bank in
        money_transfer_service number_of_text rules hour day_of_week clock fee_minor request bank
        ≡ (answer request.amount_minor result, bank')
  unfolding money_transfer_service
  passed_on clean =
      elim (Bool-cases
        (evaluate number_of_text rules (fraud_context hour day_of_week request)).suspicious) [
          | inl suspicious ↦ absurd (
              clean (
                (suspicious_iff number_of_text rules (fraud_context hour day_of_week request)).0
                  suspicious))
          | inr innocent ↦ elim (Result-cases (transfer clock asked bank).0) [
            | inl (e, failed) ↦ rw (innocent, asked-input, failed) refl
            | inr (r, done) ↦ rw (innocent, asked-input, done) refl
          ]
        ]
