-- ===== src/Transactions/Ledger/Movements.antt =====
-- What a deposit and a withdrawal do, on every branch.
use vaultline.Prelude.{
  ℕ, ◌≡◌, refl, arith, none, some, ◌∷◌, inl, inr, Option-cases, Option, ◌==◌, if◌then◌else◌,
}
use vaultline.Prelude.Int.{ℤ, pos, neg, ◌+ℤ◌, ◌≤ℤ◌, int_laws}
use vaultline.Common.{Result, ok, err, Result-cases}
use vaultline.Entities.{Account, Reference, LedgerEntryType, Description, Prefix}
use vaultline.Messaging.Events.{DomainEvent, money_deposited, money_withdrawn}
use vaultline.Transactions.Validation.{Operation, ValidationContext, validate}
use vaultline.Transactions.Validation.Accepts.{IsAllowed, validate_iff}
use vaultline.Transactions.Ledger.Tables.{
  find_account, lock_account, withdrawn_today, total_balance, id-find_account, find_account_own,
}
use vaultline.Transactions.Ledger.Postings.{
  Clock, Bank, PostingResult, post, next_reference, credited,
}
use vaultline.Transactions.Ledger.Soundness.{
  IsSound, post-IsSound, find_account-post, total_balance-post,
}
use vaultline.Transactions.Ledger.Operations.{
  PostingOptions, deposit, deposit_body, withdraw, withdraw_body,
}

-- A row that is there and allows the movement.
abbrev pub Permits : (Account → Type 0) → Option Account → Type 0
Permits allowed none = ⊥
Permits allowed (some account) = allowed account

-- One movement of money on the account `id`. It succeeds exactly when the account exists and the
-- movement is allowed. Then the account's balance has changed by `signed`, no other account has
-- changed, the money of the bank has changed by as much, and one event is published. If it throws,
-- nothing has changed.
module _ (id : ℕ) (signed : ℤ) (allowed : Account → Type 0)
    (announced : PostingResult → DomainEvent) (bank : Bank) where
  abbrev pub Moves : Result PostingResult × Bank → Type 0
  Moves (ok r, bank') =
      ((account : Account) × (find_account id bank.database.accounts ≡ some account)
        × allowed account
        × (r.balance_after_minor ≡ account.balance_minor +ℤ signed)
        × ((j : ℕ)
            → find_account j bank'.database.accounts ≡ (
                if id == j
                then some (credited account signed)
                else find_account j bank.database.accounts)))
      × (total_balance bank'.database.accounts ≡ total_balance bank.database.accounts +ℤ signed)
      × (bank'.published ≡ announced r ∷ bank.published)
  Moves (err e, bank') =
      (bank' ≡ bank) × ¬ (Permits allowed (find_account id bank.database.accounts))

  -- The same, and sound accounts are sound.
  abbrev MovesSoundly : Result PostingResult × Bank → Type 0
  MovesSoundly outcome = Moves outcome × (IsSound bank.database → IsSound outcome.1.database)

  -- A posting on the account found, once the movement is allowed.
  posting-Moves :
      (clock : Clock) (type : LedgerEntryType) (reference : Reference) (description : Description)
      (account : Account) (sequence : ℕ)
      → find_account id bank.database.accounts ≡ some account
      → allowed account
      → (IsSound bank.database → pos 0 ≤ℤ account.balance_minor +ℤ signed)
      → let (r, _, db) = post clock account signed type reference description bank.database in
        MovesSoundly (
          ok r,
          record { database = db; sequence = sequence; published = announced r ∷ bank.published },
        )
  unfolding post
  posting-Moves clock type reference description account sequence found may covered =
      let same : account.id ≡ id = id-find_account id bank.database.accounts found in
      let here = find_account_own id bank.database.accounts found in
      let db = bank.database in
      (
        (
          (
            account,
            found,
            may,
            refl,
            λ j. ground (
              arith,
              same,
              find_account-post clock account signed type reference description db j,
            ),
          ),
          total_balance-post clock account signed type reference description db here,
          refl,
        ),
        λ sound.
            post-IsSound clock account signed type reference description db here sound
              (covered sound),
      )

module _ (clock : Clock) (id : ℕ) (amount : ℤ) (options : PostingOptions) (bank : Bank) where
  -- The movements that the two methods validate.
  abbrev pub deposit_context : Account → ValidationContext
  deposit_context account = record {
    operation = Operation.deposit;
    amount_minor = amount;
    account = account;
    withdrawn_today_minor = pos 0;
  }

  abbrev pub withdrawal_context : Account → ValidationContext
  withdrawal_context account = record {
    operation = Operation.withdrawal;
    amount_minor = amount;
    account = account;
    withdrawn_today_minor = withdrawn_today id clock.start_of_day bank.database.entries;
  }

  abbrev pub deposited : PostingResult → DomainEvent
  deposited r = money_deposited r.account_id r.amount_minor r.balance_after_minor r.reference

  abbrev pub withdrawn : PostingResult → DomainEvent
  withdrawn r = money_withdrawn r.account_id amount r.balance_after_minor r.reference

  deposit-MovesSoundly :
      MovesSoundly id amount
        (λ a. IsAllowed (deposit_context a) Operation.deposit)
        deposited
        bank
        (deposit clock id amount options bank)
  unfolding deposit deposit_body lock_account next_reference
  deposit-MovesSoundly = elim (Option-cases (find_account id bank.database.accounts)) [
    | inl missing ↦ rw missing ((refl, λ may. rw missing at may), λ sound. sound)
    | inr (account, found) ↦ elim (Result-cases (validate (deposit_context account))) [
      | inl (e, refused) ↦
          rw (found, refused)
            (
              (refl, λ may. cc ((validate_iff (deposit_context account)).1 (rw found at may))),
              λ sound. sound,
            )
      | inr (u, accepted) ↦
          let may = (validate_iff (deposit_context account)).0 accepted in
          rw (found, accepted)
            (posting-Moves id amount (λ a. IsAllowed (deposit_context a) Operation.deposit)
              deposited bank clock _ _ _ account (next_reference clock Prefix.dep bank).1.sequence
              found may λ sound. omega (int_laws, sound.funded id account found, may))
    ]
  ]

  withdraw-MovesSoundly :
      MovesSoundly id
        (neg amount)
        (λ a. IsAllowed (withdrawal_context a) Operation.withdrawal)
        withdrawn
        bank
        (withdraw clock id amount options bank)
  unfolding withdraw withdraw_body lock_account next_reference
  withdraw-MovesSoundly = elim (Option-cases (find_account id bank.database.accounts)) [
    | inl missing ↦ rw missing ((refl, λ may. rw missing at may), λ sound. sound)
    | inr (account, found) ↦ elim (Result-cases (validate (withdrawal_context account))) [
      | inl (e, refused) ↦
          rw (found, refused)
            (
              (refl, λ may. cc ((validate_iff (withdrawal_context account)).1 (rw found at may))),
              λ sound. sound,
            )
      | inr (u, accepted) ↦
          let may = (validate_iff (withdrawal_context account)).0 accepted in
          rw (found, accepted)
            (posting-Moves id (neg amount)
              (λ a. IsAllowed (withdrawal_context a) Operation.withdrawal) withdrawn bank clock _ _
              _ account (next_reference clock Prefix.wdl bank).1.sequence found may
              λ sound. omega (int_laws, may))
    ]
  ]

  -- A deposit succeeds exactly when the account exists, is not closed, and the amount is positive.
  -- Then the account's balance has grown by the amount, no other account has changed, the money of
  -- the bank has grown by the amount, and one event tells of it. A deposit that throws changes nothing.
  pub deposit-Moves :
      Moves id amount
        (λ a. IsAllowed (deposit_context a) Operation.deposit)
        deposited
        bank
        (deposit clock id amount options bank)
  deposit-Moves = deposit-MovesSoundly.0

  -- A withdrawal succeeds exactly when the account exists, is active and holds the amount, the amount
  -- is positive, and the daily limit has room for it. Then the account's balance is less by the amount,
  -- no other account has changed, the money of the bank is less by the amount, and one event tells of
  -- it. A withdrawal that throws changes nothing.
  pub withdraw-Moves :
      Moves id
        (neg amount)
        (λ a. IsAllowed (withdrawal_context a) Operation.withdrawal)
        withdrawn
        bank
        (withdraw clock id amount options bank)
  withdraw-Moves = withdraw-MovesSoundly.0

  -- Where no balance is negative and every balance is the running sum of its account's entries, this is so
  -- after a deposit and after a withdrawal, whether they succeed or throw.
  pub movement-IsSound :
      IsSound bank.database
      → IsSound (deposit clock id amount options bank).1.database
        × IsSound (withdraw clock id amount options bank).1.database
  movement-IsSound sound = (deposit-MovesSoundly.1 sound, withdraw-MovesSoundly.1 sound)
