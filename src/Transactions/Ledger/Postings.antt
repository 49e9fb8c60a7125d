-- ===== src/Transactions/Ledger/Postings.antt =====
-- `LedgerService.post`: a balance and the entry that explains it are written together; and the
-- state that the ledger works on.
use vaultline.Prelude.{ℕ, ◌+◌, ◌%◌, List, ◌∷◌, if◌then◌else◌}
use vaultline.Prelude.Int.{ℤ, pos, neg, ◌+ℤ◌, ltb_ℤ}
use vaultline.Entities.{
  Account, LedgerEntry, LedgerEntryType, Database, Reference, Prefix, Description,
}
use vaultline.Messaging.Events.{DomainEvent}
use vaultline.Transactions.Ledger.Tables.{save_account, insert_entry}

-- What a call reads of its surroundings: the time (of its database transaction), the start of the
-- day, the date and a random number below 1296.
pub record Clock : Type 0 where
  pub now : ℕ
  pub start_of_day : ℕ
  pub date : ℕ
  pub random : ℕ

-- The database, the reference generator's counter, and the events published so far, newest first.
pub record Bank : Type 0 where
  pub database : Database
  pub sequence : ℕ
  pub published : List DomainEvent

-- `ReferenceNumberGenerator.next`: the counter goes round at a million.
unfoldable pub next_sequence : ℕ → ℕ
next_sequence sequence = (sequence + 1) % 1_000_000

unfoldable pub next_reference : Clock → Prefix → Bank → Reference × Bank
unfolding next_sequence
next_reference clock prefix bank =
    let sequence = next_sequence bank.sequence in
    (
      record { prefix = prefix; date = clock.date; sequence = sequence; random = clock.random },
      record bank { sequence = sequence },
    )

unfoldable pub publish : DomainEvent → Bank → Bank
publish event bank = record bank { published = event ∷ bank.published }

pub record PostingResult : Type 0 where
  pub reference : Reference
  pub account_id : ℕ
  pub amount_minor : ℤ
  pub balance_after_minor : ℤ

abbrev pub abs : ℤ → ℤ
abs a = if ltb_ℤ a (pos 0) then neg a else a

-- The entity after `account.balanceMinor += signedAmountMinor`.
abbrev pub credited : Account → ℤ → Account
credited account amount = record account { balance_minor = account.balance_minor +ℤ amount }

-- The entry that `post` inserts.
abbrev pub entry_for : Clock → Account → ℤ → LedgerEntryType → Reference → Description → LedgerEntry
entry_for clock account amount type reference description = record {
  account_id = account.id;
  type = type;
  amount_minor = amount;
  balance_after_minor = account.balance_minor +ℤ amount;
  reference = reference;
  description = description;
  created_at = clock.now;
}

-- `post` returns its result and the entity as it then is.
unfoldable pub post :
    Clock
    → Account
    → ℤ
    → LedgerEntryType
    → Reference
    → Description
    → Database
    → PostingResult × Account × Database
post clock account amount type reference description db =
    let account' = credited account amount in
    (
      record {
        reference = reference;
        account_id = account.id;
        amount_minor = abs amount;
        balance_after_minor = account'.balance_minor;
      },
      account',
      record {
        accounts = save_account account' db.accounts;
        entries =
            insert_entry (entry_for clock account amount type reference description) db.entries;
      },
    )
