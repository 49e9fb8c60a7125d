-- ===== src/Transactions/Ledger/Reversal.antt =====
-- `LedgerService.reverse` in modules/transactions/ledger.service.ts: opposite entries for every entry
-- of a reference.
use vaultline.Prelude.{ℕ, Bool, true, false, List, [], ◌∷◌, ◌==◌, ltb, if◌then◌else◌, length}
use vaultline.Prelude.Int.{pos, neg, ◌-ℤ◌, ltb_ℤ}
use vaultline.Common.{
  Result, ok, err, ◌>>=◌, ◌>>◌, throw_if, or_throw, not_found, business_rule, already_reversed,
  no_transaction, not_enough_to_reverse, unknown_account,
}
use vaultline.Entities.{
  Account, LedgerEntry, LedgerEntryType, Database, Reference, Prefix, reversal_of,
}
use vaultline.Messaging.Events.{transaction_reversed}
use vaultline.Transactions.Ledger.Tables.{
  find_account, save_account, lock_account, entries_of, reversal_exists,
}
use vaultline.Transactions.Ledger.Postings.{Clock, Bank, next_reference, publish, post}
use vaultline.Transactions.Ledger.Operations.{transaction}

-- A set of ids in ascending order.
unfoldable pub insert_id : ℕ → List ℕ → List ℕ
insert_id id [] = id ∷ []
insert_id id (j ∷ ids) =
    let rest = insert_id id ids in
    if id == j then j ∷ ids else if ltb id j then id ∷ j ∷ ids else j ∷ rest

-- `[...new Set(entries.map((e) => e.accountId))].sort()`
unfoldable pub account_ids : List LedgerEntry → List ℕ
unfolding insert_id
account_ids [] = []
account_ids (e ∷ entries) = insert_id e.account_id (account_ids entries)

unfoldable pub lock_accounts : List ℕ → Database → Result (List Account)
lock_accounts [] db = ok []
lock_accounts (id ∷ ids) db = do
  account ← lock_account id db
  accounts ← lock_accounts ids db
  ok (account ∷ accounts)

-- The loop over the entries, with the locked entities as they are then. Every entry's account is
-- among them (`accounts.get(entry.accountId)!`).
unfoldable pub reverse_entries :
    Clock → Reference → Reference → List LedgerEntry → List Account → Database → Result Database
reverse_entries clock original reference [] accounts db = ok db
reverse_entries clock original reference (entry ∷ entries) accounts db = do
  account ← or_throw (find_account entry.account_id accounts) (not_found unknown_account)
  throw_if (ltb_ℤ (account.balance_minor -ℤ entry.amount_minor) (pos 0))
      (business_rule not_enough_to_reverse)
  let (_, account', db') =
      post clock account (neg entry.amount_minor) LedgerEntryType.reversal reference
        (reversal_of original) db
  reverse_entries clock original reference entries (save_account account' accounts) db'

abbrev pub is_empty : List LedgerEntry → Bool
is_empty [] = true
is_empty (e ∷ entries) = false

unfoldable pub reverse_body :
    Clock → Reference → Reference → Bank → Result (List LedgerEntry × Bank)
reverse_body clock original reference bank = do
  throw_if (reversal_exists original bank.database.entries) (business_rule already_reversed)
  let entries = entries_of original bank.database.entries
  throw_if (is_empty entries) (not_found no_transaction)
  accounts ← lock_accounts (account_ids entries) bank.database
  db ← reverse_entries clock original reference entries accounts bank.database
  ok (entries, record bank { database = db })

-- One event for each reversed entry.
unfoldable pub announce_reversal : Reference → Reference → List LedgerEntry → Bank → Bank
unfolding publish
announce_reversal original reference [] bank = bank
announce_reversal original reference (e ∷ entries) bank =
    announce_reversal original reference entries
      (publish (transaction_reversed e.account_id original reference (neg e.amount_minor)) bank)

pub record ReversalResult : Type 0 where
  pub reference : Reference
  pub reversed_entries : ℕ

reversal_result : Reference → Result (List LedgerEntry) → Result ReversalResult
reversal_result reference (ok entries) =
    ok (record { reference = reference; reversed_entries = length entries })
reversal_result reference (err e) = err e

unfoldable pub reverse : Clock → Reference → Bank → Result ReversalResult × Bank
unfolding transaction announce_reversal reversal_result
reverse clock original bank =
    let (reference, bank') = next_reference clock Prefix.rev bank in
    let (reversed, bank'') =
      transaction (announce_reversal original reference)
        (reverse_body clock original reference bank') bank' in
    (reversal_result reference reversed, bank'')
