-- ===== src/Transactions/Ledger/Transfers.antt =====
-- What a transfer does, on every branch.
use vaultline.Prelude.{
  ℕ, ◌≡◌, ◌≢◌, refl, sym, ◌∙◌, arith, false, none, some, ◌∷◌, inl, inr, Option-cases, Bool-cases,
  ◌⊎◌, ◌==◌, str_eq, str_eq_iff, List,
}
use vaultline.Prelude.Int.{pos, ◌+ℤ◌, ◌≤ℤ◌}
use vaultline.Common.{Result, ok, err, Result-cases, not_found, unknown_account}
use vaultline.Entities.{Account, Reference, Database, Prefix}
use vaultline.Messaging.Events.{money_transferred}
use vaultline.Transactions.Validation.{Operation, ValidationContext, validate}
use vaultline.Transactions.Validation.Accepts.{IsAllowed, validate_iff}
use vaultline.Transactions.Ledger.Tables.{
  find_account, lock_account, withdrawn_today, id-find_account, find_account_own,
}
use vaultline.Transactions.Ledger.Postings.{Clock, Bank, next_reference}
use vaultline.Transactions.Ledger.Soundness.{IsSound}
use vaultline.Transactions.Ledger.Operations.{
  LedgerTransferInput, LedgerTransferResult, transfer, transfer_body, lock_both,
}
use vaultline.Transactions.Ledger.Settlement.{Transferred, transfer_postings-Transferred}

-- The lock order is a detail: the accounts come back as source and target, or the first that is
-- missing is reported.
lock_both-eq-ok :
    (from_id to_id : ℕ) (db : Database) (from to : Account)
    → find_account from_id db.accounts ≡ some from
    → find_account to_id db.accounts ≡ some to
    → from_id ≢ to_id
    → lock_both from_id to_id db ≡ ok (from, to)
unfolding lock_both lock_account
lock_both-eq-ok from_id to_id db from to hf ht ne =
    ground (arith, id-find_account from_id db.accounts hf, id-find_account to_id db.accounts ht)

lock_both-missing :
    (from_id to_id : ℕ) (db : Database)
    → (find_account from_id db.accounts ≡ none) ⊎ (find_account to_id db.accounts ≡ none)
    → lock_both from_id to_id db ≡ err (not_found unknown_account)
unfolding lock_both lock_account
lock_both-missing from_id to_id db h = ground arith

-- What a transfer validates.
module _ (clock : Clock) (input : LedgerTransferInput) (bank : Bank) where
  abbrev pub debit_context : Account → ValidationContext
  debit_context from = record {
    operation = Operation.withdrawal;
    amount_minor = input.amount_minor +ℤ input.fee_minor;
    account = from;
    withdrawn_today_minor = withdrawn_today from.id clock.start_of_day bank.database.entries;
  }

  abbrev pub credit_context : Account → ValidationContext
  credit_context to = record {
    operation = Operation.deposit;
    amount_minor = input.amount_minor;
    account = to;
    withdrawn_today_minor = pos 0;
  }

  -- The two accounts of a transfer that may go ahead: they exist and differ, have one currency, the
  -- source may pay the amount and the fee, and the target may receive the amount.
  abbrev pub MayTransfer : Account → Account → Type 0
  MayTransfer from to =
      (find_account input.from_account_id bank.database.accounts ≡ some from)
      × (find_account input.to_account_id bank.database.accounts ≡ some to)
      × (input.from_account_id ≢ input.to_account_id)
      × (from.currency ≡ to.currency)
      × IsAllowed (debit_context from) Operation.withdrawal
      × IsAllowed (credit_context to) Operation.deposit

  abbrev pub reference : Reference
  reference = (next_reference clock Prefix.trf bank).0

  abbrev pub Transfers : Result LedgerTransferResult × Bank → Type 0
  Transfers (ok r, bank') =
      ((from to : Account) × MayTransfer from to
        × Transferred clock input reference bank.database from to bank'.database)
      × (bank'.published
          ≡ money_transferred input.from_account_id input.to_account_id input.amount_minor
              input.fee_minor reference
            ∷ bank.published)
  Transfers (err e, bank') =
      (bank'.database ≡ bank.database)
      × (bank'.published ≡ bank.published)
      × ((from to : Account) → ¬ (MayTransfer from to))

  -- The same, and sound accounts are sound.
  abbrev TransfersSoundly : Result LedgerTransferResult × Bank → Type 0
  TransfersSoundly outcome =
      Transfers outcome × (IsSound bank.database → IsSound outcome.1.database)

  abbrev accounts : List Account
  accounts = bank.database.accounts

  abbrev Apart : ℕ → ℕ → Type 0
  Apart a b = (a == b) ≡ false

  -- The checks and postings between two accounts that were found.
  found-Transfers :
      (from to : Account)
      → pos 0 ≤ℤ input.fee_minor
      → Apart input.from_account_id input.to_account_id
      → find_account input.from_account_id accounts ≡ some from
      → find_account input.to_account_id accounts ≡ some to
      → TransfersSoundly (transfer clock input bank)
  unfolding transfer transfer_body next_reference
  found-Transfers from to fee other hf ht =
      let ne : input.from_account_id ≢ input.to_account_id = ground arith in
      rw
        (
          other,
          lock_both-eq-ok input.from_account_id input.to_account_id bank.database from to hf ht ne,
        )
        (elim (Bool-cases (str_eq from.currency to.currency)) [
          | inr differ ↦ rw differ (
            (
              refl,
              refl,
              λ f t may.
                  let e : from.currency ≡ to.currency = cc (may.0, may.1, may.3) in
                  cc ((str_eq_iff from.currency to.currency).1 e),
            ),
            λ sound. sound,
          )
          | inl same ↦ elim (Result-cases (validate (debit_context from))) [
            | inl (e, refused) ↦
                rw (same, refused)
                  (
                    (refl, refl, λ f t may. cc (may.0, (validate_iff (debit_context f)).1 may.4)),
                    λ sound. sound,
                  )
            | inr (u, paid) ↦ elim (Result-cases (validate (credit_context to))) [
              | inl (e, refused) ↦
                  rw (same, paid, refused)
                    (
                      (
                        refl,
                        refl,
                        λ f t may. cc (may.1, (validate_iff (credit_context t)).1 may.5),
                      ),
                      λ sound. sound,
                    )
              | inr (v, received) ↦
                  let may_pay = (validate_iff (debit_context from)).0 paid in
                  let may_receive = (validate_iff (credit_context to)).0 received in
                  let settled =
                    transfer_postings-Transferred clock input reference bank.database from to
                      (find_account_own input.from_account_id accounts hf)
                      (find_account_own input.to_account_id accounts ht)
                      (λ e. ne (
                        sym (id-find_account input.from_account_id accounts hf)
                        ∙ e
                        ∙ id-find_account input.to_account_id accounts ht))
                      fee may_receive.0 may_pay.2 in
                  let same_currency = (str_eq_iff from.currency to.currency).0 same in
                  rw (same, paid, received)
                    (
                      (
                        (from, to, (hf, ht, ne, same_currency, may_pay, may_receive), settled.0),
                        refl,
                      ),
                      settled.1,
                    )
            ]
          ]
        ])

  abbrev MissingTransfers : Type 0
  MissingTransfers =
      (find_account input.from_account_id accounts ≡ none)
        ⊎ (find_account input.to_account_id accounts ≡ none)
      → (input.from_account_id == input.to_account_id) ≡ false
      → TransfersSoundly (transfer clock input bank)

  unfound-Transfers : MissingTransfers
  unfolding transfer transfer_body next_reference
  unfound-Transfers missing other =
      rw (other, lock_both-missing input.from_account_id input.to_account_id bank.database missing)
        ((refl, refl, λ from to may. ground (arith, may.0, may.1)), λ sound. sound)

  transfer-TransfersSoundly :
      pos 0 ≤ℤ input.fee_minor → TransfersSoundly (transfer clock input bank)
  unfolding transfer
  transfer-TransfersSoundly fee = elim (Bool-cases (input.from_account_id == input.to_account_id)) [
    | inl same ↦ rw same ((refl, refl, λ from to may. ground arith), λ sound. sound)
    | inr other ↦ elim (Option-cases (find_account input.from_account_id accounts)) [
      | inl missing ↦ unfound-Transfers (inl missing) other
      | inr (from, hf) ↦ elim (Option-cases (find_account input.to_account_id accounts)) [
        | inl missing ↦ unfound-Transfers (inr missing) other
        | inr (to, ht) ↦ found-Transfers from to fee other hf ht
      ]
    ]
  ]

  -- A transfer with a fee that is not negative succeeds exactly when its two accounts exist and differ,
  -- have one currency, the source may withdraw the amount and the fee, and the target may receive the
  -- amount. Then the source has paid both, the target has the amount, no other account has changed,
  -- the fee alone has left the bank, and one event tells of it. A transfer that throws changes no
  -- account and no entry, and publishes nothing.
  pub transfer-Transfers : pos 0 ≤ℤ input.fee_minor → Transfers (transfer clock input bank)
  transfer-Transfers fee = (transfer-TransfersSoundly fee).0

  -- Where no balance is negative and every balance is the running sum of its account's entries, this is so
  -- after a transfer with a fee that is not negative, whether it succeeds or throws.
  pub transfer-IsSound :
      pos 0 ≤ℤ input.fee_minor
      → IsSound bank.database
      → IsSound (transfer clock input bank).1.database
  transfer-IsSound fee sound = (transfer-TransfersSoundly fee).1 sound
