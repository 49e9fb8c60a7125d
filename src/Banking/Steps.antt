-- ===== src/Banking/Steps.antt =====
-- What the steps of an onboarding and its compensation leave.
use mathlib.Core.Path.{subst}
use vaultline.Prelude.{
  ℕ, Bool, true, false, ◌⊎◌, Option-cases, ◌≡◌, ◌≢◌, refl, sym, ap, ◌∙◌, arith, Option, none, some,
  inl, inr, Bool-cases, ◌==◌, if◌then◌else◌,
}
use vaultline.Prelude.Int.{ℤ, pos, ◌+ℤ◌, ◌≤ℤ◌, int_laws, ltb_ℤ, +ℤ-zero, +ℤ_cancel_right}
use vaultline.Common.{Result, ok, err, DomainError, Result-cases}
use vaultline.Entities.{Account, Reference, Prefix, StatusAction, pending, active, closed}
use vaultline.Messaging.Events
use vaultline.Accounts.State.{next_status}
use vaultline.Accounts.Service.{change_status, change_found, write_status, find_by_id}
use vaultline.Transactions.Validation.{Operation, validate}
use vaultline.Transactions.Validation.Accepts.{IsAllowed}
use vaultline.Transactions.Ledger.Tables.{
  find_account, lock_account, total_balance, find_account-save, total_balance-save,
}
use vaultline.Transactions.Ledger.Postings.{
  Clock, Bank, PostingResult, credited, post, next_reference,
}
use vaultline.Transactions.Ledger.Operations.{deposit, deposit_body}
use vaultline.Transactions.Ledger.Movements.{Moves, Permits, deposit-Moves, deposit_context}
use vaultline.Transactions.Ledger.Movements
use vaultline.Banking.{
  Failures, close_and_throw, initial_deposit, deposit_initial, deposited, activated, welcome,
}

-- A movement that the row permits goes through.
pub goes_through :
    (id : ℕ) (signed : ℤ) (allowed : Account → Type 0)
    (announced : PostingResult → Events.DomainEvent) (bank : Bank) (account : Account)
    (outcome : Result PostingResult × Bank)
    → Moves id signed allowed announced bank outcome
    → find_account id bank.database.accounts ≡ some account
    → allowed account
    → (r : PostingResult) × (bank' : Bank) × (outcome ≡ (ok r, bank'))
      × Moves id signed allowed announced bank (ok r, bank')
goes_through id signed allowed announced bank account (ok r, bank') moved found may =
    (r, bank', refl, moved)
goes_through id signed allowed announced bank account (err e, bank') moved found may =
    absurd (moved.1 (subst (Permits allowed) (sym found) may))

-- The money that comes with a customer.
abbrev pub brought : ℤ → ℤ
brought amount = if ltb_ℤ (pos 0) amount then amount else pos 0

-- The tables in which one row is `account` and the others are those of `bank`, with `amount` more money.
abbrev pub Holds : ℕ → Account → ℤ → Bank → Bank → Type 0
Holds id account amount bank bank' =
    ((j : ℕ)
      → find_account j bank'.database.accounts
        ≡ (if id == j then some account else find_account j bank.database.accounts))
    × (total_balance bank'.database.accounts ≡ total_balance bank.database.accounts +ℤ amount)

pub deposit_initial-Holds :
    (failures : Failures) (clock : Clock) (account : Account) (amount : ℤ) (bank bank₁ : Bank)
    → account.status ≡ pending
    → (ltb_ℤ (pos 0) amount ≡ true → failures.deposit_fails ≡ false)
    → Holds account.id account (pos 0) bank bank₁
    → (reference : Option Reference) × (bank₂ : Bank) × (deposit_initial failures clock account.id
          amount bank₁
        ≡ (ok reference, bank₂))
      × Holds account.id (credited account (brought amount)) (brought amount) bank bank₂
unfolding deposit_initial
deposit_initial-Holds failures clock account amount bank bank₁ new works holds =
    elim (Bool-cases (ltb_ℤ (pos 0) amount)) [
      | inr nothing ↦
          let same : credited account (pos 0) ≡ account =
            ap (λ (n : ℤ). record account { balance_minor = n }) (+ℤ-zero account.balance_minor) in
          rw nothing
            (none, bank₁, refl, subst (λ a. Holds account.id a (pos 0) bank bank₁) (sym same) holds)
      | inl something ↦
          let found : find_account account.id bank₁.database.accounts ≡ some account =
            ground (arith, holds.0 account.id) in
          let may : (pos 1 ≤ℤ amount) × (account.status ≢ closed) = (ground arith, ground arith) in
          let (r, bank₂, went, moved) =
            goes_through account.id amount
              (λ a.
                IsAllowed (deposit_context clock account.id amount initial_deposit bank₁ a)
                  Operation.deposit)
              (Movements.deposited clock account.id amount initial_deposit bank₁) bank₁ account
              (deposit clock account.id amount initial_deposit bank₁)
              (deposit-Moves clock account.id amount initial_deposit bank₁) found may in
          let ((own, found', _, _, rows), total, _) = moved in
          let same : own ≡ account = ground (arith, found, found') in
          rw (something, works something, went)
            (
              some r.reference,
              bank₂,
              refl,
              (λ j. ground (arith, rows j, holds.0 j, same), total ∙ rw (holds.1) (omega int_laws)),
            )
    ]

-- The row as it is once the customer is active.
abbrev pub activate_row : Account → Account
activate_row a = record a { status = active }

pub activate-Holds :
    (account : Account) (amount : ℤ) (bank bank₂ : Bank)
    → account.status ≡ pending
    → Holds account.id account amount bank bank₂
    → (bank₃ : Bank) × (change_status account.id StatusAction.activate bank₂
        ≡ (ok (activate_row account), bank₃))
      × Holds account.id (activate_row account) amount bank bank₃
unfolding change_status change_found write_status find_by_id next_status
activate-Holds account amount bank bank₂ new holds =
    let found : find_account account.id bank₂.database.accounts ≡ some account =
      ground (arith, holds.0 account.id) in
    rw (found, new)
      (
        _,
        refl,
        (
          λ j. ground (
            arith,
            find_account-save j (activate_row account) bank₂.database.accounts,
            holds.0 j,
          ),
          +ℤ_cancel_right _ _ account.balance_minor
                (total_balance-save (activate_row account) account bank₂.database.accounts found)
              ∙ holds.1,
        ),
      )

pub differ : false ≡ true → ⊥
differ h = ground arith

pub deposit_fails-cases :
    (something fails : Bool)
    → ((something ≡ true) × (fails ≡ true)) ⊎ (something ≡ true → fails ≡ false)
deposit_fails-cases true true = inl (refl, refl)
deposit_fails-cases true false = inr (λ h. refl)
deposit_fails-cases false fails = inr (λ h. absurd (differ h))

-- The tables in which one row is `account` and the others are those of `bank`.
abbrev pub HasRow : ℕ → Account → Bank → Bank → Type 0
HasRow id account bank bank' =
    (j : ℕ)
    → find_account j bank'.database.accounts
      ≡ (if id == j then some account else find_account j bank.database.accounts)

unfoldable pub closed_row : Account → Account
closed_row a = record a { status = closed }

-- An empty account that is not active yet is closed, and the error goes on.
pub close_and_throw-HasRow :
    (e : DomainError) (account : Account) (bank bank₁ : Bank)
    → account.status ≡ pending
    → account.balance_minor ≡ pos 0
    → HasRow account.id account bank bank₁
    → let (result, bank') = close_and_throw account.id e bank₁ in
      (result ≡ err e) × HasRow account.id (closed_row account) bank bank'
unfolding close_and_throw change_status change_found write_status find_by_id next_status closed_row
close_and_throw-HasRow e account bank bank₁ new empty rows =
    let found : find_account account.id bank₁.database.accounts ≡ some account =
      ground (arith, rows account.id) in
    rw (found, new, empty)
      (
        refl,
        λ j.
            ground
              (arith, find_account-save j (closed_row account) bank₁.database.accounts, rows j),
      )

-- A deposit that succeeded answers with the reference that was drawn.
abbrev pub Answers : Reference → Result PostingResult → Type 0
Answers q (ok r) = r.reference ≡ q
Answers q (err e) = Unit {0}

pub deposit-Answers :
    (clock : Clock) (id : ℕ) (amount : ℤ) (bank : Bank)
    → Answers
        (next_reference clock Prefix.dep bank).0
        (deposit clock id amount initial_deposit bank).0
unfolding deposit deposit_body lock_account next_reference post
deposit-Answers clock id amount bank =
    elim (Option-cases (find_account id bank.database.accounts)) [
      | inl missing ↦ rw missing tt
      | inr (account, found) ↦
          elim (Result-cases
            (validate (deposit_context clock id amount initial_deposit bank account))) [
              | inl (e, refused) ↦ rw (found, refused) tt
              | inr (u, accepted) ↦ rw (found, accepted) refl
            ]
    ]

-- Where no step fails, the event is next.
pub goes_to_end :
    (failures : Failures) (clock : Clock) (account saved : Account) (amount : ℤ)
    (reference : Option Reference) (bank₁ bank₂ bank₃ : Bank)
    → deposit_initial failures clock account.id amount bank₁ ≡ (ok reference, bank₂)
    → failures.activation_fails ≡ false
    → change_status account.id StatusAction.activate bank₂ ≡ (ok saved, bank₃)
    → deposited failures clock account amount
        (deposit_initial failures clock account.id amount bank₁)
      ≡ welcome account.id account.owner_name amount reference bank₃
unfolding deposited activated
goes_to_end failures clock account saved amount reference bank₁ bank₂ bank₃ went goes active_now =
    rw (went, goes, active_now) refl
