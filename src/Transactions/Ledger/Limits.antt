-- ===== src/Transactions/Ledger/Limits.antt =====
-- The daily limit: what the ledger counts as withdrawn today, after a withdrawal and a transfer.
use vaultline.Prelude.{ℕ, ◌≡◌, ◌≤◌, refl, arith, Option, none, some, inl, inr, true}
use vaultline.Prelude.Int.{ℤ, neg, ◌+ℤ◌, ◌≤ℤ◌, int_laws}
use vaultline.Common.{Result-cases, is_ok}
use vaultline.Entities.{Account, Reference, Description, LedgerEntryType, plain, Prefix}
use vaultline.Transactions.Validation.{validate}
use vaultline.Transactions.Validation.Accepts.{validate_iff}
use vaultline.Transactions.Ledger.Tables.{
  find_account, lock_account, withdrawn_today, withdrawn_today-insert, counts_today, insert_entry,
  id-find_account,
}
use vaultline.Transactions.Ledger.Postings.{Clock, Bank, post, next_reference, entry_for}
use vaultline.Transactions.Ledger.Operations.{PostingOptions, withdraw, withdraw_body, get_or}
use vaultline.Transactions.Ledger.Movements.{withdrawal_context}

-- A caller's options: a text at most.
abbrev pub with_text : Option Description → PostingOptions
with_text description = record { description = description; type = none }

module _ (clock : Clock) (id : ℕ) (amount : ℤ) (text : Option Description) (bank : Bank) where
  -- The entry of a withdrawal of today counts.
  counted :
      (account : Account) (reference : Reference) (description : Description)
      → clock.start_of_day ≤ clock.now
      → account.id ≡ id
      → withdrawn_today id clock.start_of_day (
          insert_entry
            (entry_for clock account (neg amount) LedgerEntryType.withdrawal reference description)
            bank.database.entries)
        ≡ withdrawn_today id clock.start_of_day bank.database.entries +ℤ amount
  counted account reference description today same =
      let e =
        entry_for clock account (neg amount) LedgerEntryType.withdrawal reference description in
      let yes_it_counts : counts_today id clock.start_of_day e ≡ true = ground arith in
      rw (withdrawn_today-insert id clock.start_of_day e bank.database.entries, yes_it_counts)
        (omega int_laws)

  -- Let the clock read a time of the day or later than its start, and the account exist. After a
  -- withdrawal that succeeded under its own entry type, the amount is counted as withdrawn today
  -- on top of what was, and the count is within the daily limit of the account.
  pub withdraw_within_limit :
      (account : Account)
      → clock.start_of_day ≤ clock.now
      → find_account id bank.database.accounts ≡ some account
      → is_ok (withdraw clock id amount (with_text text) bank).0 ≡ true
      → (withdrawn_today id clock.start_of_day
            (withdraw clock id amount (with_text text) bank).1.database.entries
          ≡ withdrawn_today id clock.start_of_day bank.database.entries +ℤ amount)
        × (withdrawn_today id clock.start_of_day
              (withdraw clock id amount (with_text text) bank).1.database.entries
            ≤ℤ account.daily_withdrawal_limit_minor)
  unfolding withdraw withdraw_body lock_account next_reference post
  withdraw_within_limit account today found done =
      elim (Result-cases
        (validate (withdrawal_context clock id amount (with_text text) bank account))) [
          | inl (e, refused) ↦ absurd (ground arith)
          | inr (u, accepted) ↦
              let may =
                (validate_iff (withdrawal_context clock id amount (with_text text) bank account)).0
                  accepted in
              let count =
                counted account (next_reference clock Prefix.wdl bank).0 (get_or text (plain ""))
                  today (id-find_account id bank.database.accounts found) in
              rw (found, accepted, count) (refl, may.3)
        ]
