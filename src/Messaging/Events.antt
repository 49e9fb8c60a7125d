-- ===== src/Messaging/Events.antt =====
-- The event contracts of modules/messaging/domain-events.ts. An event is its type and payload; the
-- random event id and the time of `createEvent` are not kept.
use vaultline.Prelude.{String}
use vaultline.Prelude.Int.{ℤ}
use vaultline.Prelude.{ℕ}
use vaultline.Entities.{AccountType, AccountStatus, Reference, LoanStatus}

pub data DomainEvent : Type 0 where
  account_opened : ℕ → String → String → AccountType → String → DomainEvent
  account_status_changed : ℕ → AccountStatus → AccountStatus → DomainEvent
  money_deposited money_withdrawn :
      (account : ℕ) (amount balance_after : ℤ) → Reference → DomainEvent
  money_transferred : (from to : ℕ) (amount fee : ℤ) → Reference → DomainEvent
  transaction_reversed : (account : ℕ) (original reference : Reference) (amount : ℤ) → DomainEvent
  loan_decided : (loan account : ℕ) → LoanStatus → ℤ → DomainEvent
  customer_onboarded : ℕ → String → ℤ → DomainEvent
