-- ===== src/Transactions/Ledger/Undo.antt =====
-- Reversals as undo: a movement that is reversed is as if it had not been, a transaction is reversed
-- once at most, and a text can stand in the way.
use vaultline.Prelude.{
  ℕ, ◌≡◌, refl, sym, ap, ◌∙◌, arith, Bool, true, false, Option, some, [], ◌∷◌, inl, inr,
  Option-cases, ◌==◌, if◌then◌else◌,
}
use vaultline.Prelude.Int.{ℤ, pos, neg, ◌+ℤ◌, ◌-ℤ◌, ◌≤ℤ◌, int_laws, ltb_ℤ, +ℤ-sub, nonneg_test}
use vaultline.Common.{Result, ok, err, Result-cases, is_ok, business_rule, already_reversed}
use vaultline.Entities.{
  Account, LedgerEntry, Reference, LedgerEntryType, Description, plain, Prefix, reversal_of,
  same_reference_iff,
}
use vaultline.Transactions.Validation.{validate}
use vaultline.Transactions.Ledger.Tables.{
  find_account, entry_sum, id-find_account, find_account_own, lock_account, reversal_exists,
  reversal_exists-insert, entries_of, entries_of-insert, is_reversal_of,
}
use vaultline.Transactions.Ledger.Postings.{Clock, Bank, post, credited, entry_for, next_reference}
use vaultline.Transactions.Ledger.Soundness.{IsSound, post-Posted}
use vaultline.Transactions.Ledger.Operations.{
  PostingOptions, deposit, deposit_body, withdraw, withdraw_body, get_or, type_or,
}
use vaultline.Transactions.Ledger.Movements.{deposit_context, withdrawal_context}
use vaultline.Transactions.Ledger.Reversal.{
  reverse, reverse_body, reverse_entries, account_ids, lock_accounts, ReversalResult,
}
use vaultline.Transactions.Ledger.Reversals.{
  Reverses, reverse-Reverses, credit_row, credit_row-zero,
}

-- Where the mark of a reversal stands, `reverse` refuses.
refused_if_marked :
    (clock : Clock) (q : Reference) (bank : Bank)
    → reversal_exists q bank.database.entries ≡ true
    → (reverse clock q bank).0 ≡ err (business_rule already_reversed)
unfolding reverse reverse_body next_reference
refused_if_marked clock q bank marked = rw marked

-- After a reversal that succeeded, a second one of the same reference is refused as made before.
pub reverse_twice :
    (clock clock' : Clock) (q : Reference) (bank : Bank)
    → is_ok (reverse clock q bank).0 ≡ true
    → (reverse clock' q (reverse clock q bank).1).0 ≡ err (business_rule already_reversed)
reverse_twice clock clock' q bank done =
    refused_if_marked clock' q (reverse clock q bank).1
      (marks (reverse clock q bank) done (reverse-Reverses clock q bank))
  where
    marks :
        (r : Result ReversalResult × Bank)
        → is_ok r.0 ≡ true
        → Reverses clock q bank r
        → reversal_exists q r.1.database.entries ≡ true
    marks (ok r, bank') done h = h.2
    marks (err e, bank') done h = cc

find_account_one : (id : ℕ) (a : Account) → a.id ≡ id → find_account id (a ∷ []) ≡ some a
unfolding find_account
find_account_one id a same = ground arith

-- The reversal of a single entry goes through when its account holds the money.
reverse_one :
    (clock : Clock) (q : Reference) (bank : Bank) (e : LedgerEntry) (a : Account)
    → entries_of q bank.database.entries ≡ e ∷ []
    → reversal_exists q bank.database.entries ≡ false
    → find_account e.account_id bank.database.accounts ≡ some a
    → ltb_ℤ (a.balance_minor -ℤ e.amount_minor) (pos 0) ≡ false
    → is_ok (reverse clock q bank).0 ≡ true
unfolding reverse reverse_body next_reference account_ids lock_accounts lock_account reverse_entries
reverse_one clock q bank e a one new found enough =
    let mine =
      find_account_one e.account_id a (id-find_account e.account_id bank.database.accounts found) in
    rw (new, one, found, mine, enough)

-- Taking back what was put in leaves the row as it was.
row_restored :
    (b : Bool) (a : Account) (signed : ℤ) (o : Option Account)
    → credit_row
        (neg (if b then signed +ℤ pos 0 else pos 0))
        (if b then some (credited a signed) else o)
      ≡ (if b then some a else o)
row_restored true a signed o =
    ap (λ (n : ℤ). some (record a { balance_minor = n })) (restored a.balance_minor signed)
  where
    restored : (n s : ℤ) → n +ℤ s +ℤ neg (s +ℤ pos 0) ≡ n
    restored n s = omega int_laws
row_restored false a signed o = sym (credit_row-zero o)

-- A reference that no entry has, that nobody has reversed, and that the movement's text does not
-- claim to reverse.
abbrev pub IsFresh : Reference → Description → Bank → Type 0
IsFresh q description bank =
    (entries_of q bank.database.entries ≡ [])
    × (reversal_exists q bank.database.entries ≡ false)
    × (is_reversal_of q description ≡ false)

-- Every row is as in the first bank.
abbrev pub SameRows : Bank → Bank → Type 0
SameRows bank bank' =
    (j : ℕ) → find_account j bank'.database.accounts ≡ find_account j bank.database.accounts

-- A reversal went through, and every account is as it was in the bank before.
abbrev pub IsUndone : Bank → Result ReversalResult × Bank → Type 0
IsUndone bank (result, bank') = (is_ok result ≡ true) × SameRows bank bank'

module _ (clock : Clock) (account : Account) (signed : ℤ) (type : LedgerEntryType) (q : Reference)
    (description : Description) (bank bank' : Bank)
    (found : find_account account.id bank.database.accounts ≡ some account)
    (posted : bank'.database ≡ (post clock account signed type q description bank.database).2)
    (fresh : IsFresh q description bank) where
  abbrev entry : LedgerEntry
  entry = entry_for clock account signed type q description

  one_entry : entries_of q bank'.database.entries ≡ entry ∷ []
  unfolding post
  one_entry = rw (
    posted,
    entries_of-insert q entry bank.database.entries,
    fresh.0,
    (same_reference_iff q q).1 refl,
  )

  no_mark : reversal_exists q bank'.database.entries ≡ false
  unfolding post
  no_mark = rw (posted, reversal_exists-insert q entry bank.database.entries, fresh.1, fresh.2)

  row :
      (j : ℕ)
      → find_account j bank'.database.accounts ≡ (
          if account.id == j
          then some (credited account signed)
          else find_account j bank.database.accounts)
  row j = rw posted ((post-Posted clock account signed type q description bank.database found).0 j)

  own_row : find_account account.id bank'.database.accounts ≡ some (credited account signed)
  own_row = ground (arith, row account.id)

  before :
      (j : ℕ)
      → (if account.id == j then some account else find_account j bank.database.accounts)
        ≡ find_account j bank.database.accounts
  before j = ground arith

  undo_rows :
      (clock' : Clock)
      → pos 0 ≤ℤ account.balance_minor
      → (is_ok (reverse clock' q bank').0 ≡ true) × SameRows bank (reverse clock' q bank').1
  unfolding entry_sum
  undo_rows clock' funded =
      let done =
        reverse_one clock' q bank' entry (credited account signed) one_entry no_mark own_row
          (rw +ℤ-sub (nonneg_test account.balance_minor funded)) in
      (done, rows (reverse clock' q bank') done (reverse-Reverses clock' q bank'))
    where
      rows :
          (r : Result ReversalResult × Bank)
          → is_ok r.0 ≡ true
          → Reverses clock' q bank' r
          → SameRows bank r.1
      rows (ok r, bank'') d h j =
          h.0 j
          ∙ rw (one_entry, row j)
              (row_restored (account.id == j) account signed
                (find_account j bank.database.accounts))
          ∙ before j
      rows (err e, bank'') d h j = cc

-- A deposit on a row that holds no less than nothing is undone.
pub deposit_undo_of :
    (clock clock' : Clock) (id : ℕ) (amount : ℤ) (options : PostingOptions) (bank : Bank)
    (account : Account)
    → find_account id bank.database.accounts ≡ some account
    → pos 0 ≤ℤ account.balance_minor
    → is_ok (deposit clock id amount options bank).0 ≡ true
    → IsFresh (next_reference clock Prefix.dep bank).0 (get_or options.description (plain "")) bank
    → IsUndone bank (
        reverse clock'
          (next_reference clock Prefix.dep bank).0
          (deposit clock id amount options bank).1)
unfolding deposit deposit_body lock_account next_reference
deposit_undo_of clock clock' id amount options bank account found funded done fresh =
    elim (Result-cases (validate (deposit_context clock id amount options bank account))) [
      | inl (e, refused) ↦ absurd (ground arith)
      | inr (u, accepted) ↦
          rw (found, accepted)
            (undo_rows clock account amount _ _ _ bank _
              (find_account_own id bank.database.accounts found) refl fresh clock' funded)
    ]

module _ (clock clock' : Clock) (id : ℕ) (amount : ℤ) (options : PostingOptions) (bank : Bank)
    (sound : IsSound bank.database) where
  abbrev deposit_reference : Reference
  deposit_reference = (next_reference clock Prefix.dep bank).0

  abbrev withdraw_reference : Reference
  withdraw_reference = (next_reference clock Prefix.wdl bank).0

  -- Let no balance be negative and every balance be the running sum of its account's entries. A deposit that
  -- succeeded under a reference that no entry has and no mark names, with a text that is not the mark
  -- of that reference, is undone by reversing the reference: the reversal succeeds, and every account
  -- is as it was before the deposit.
  pub deposit_undo :
      is_ok (deposit clock id amount options bank).0 ≡ true
      → IsFresh deposit_reference (get_or options.description (plain "")) bank
      → IsUndone bank (reverse clock' deposit_reference (deposit clock id amount options bank).1)
  unfolding deposit deposit_body lock_account next_reference
  deposit_undo done fresh = elim (Option-cases (find_account id bank.database.accounts)) [
    | inl missing ↦ absurd (ground arith)
    | inr (account, found) ↦
        deposit_undo_of clock clock' id amount options bank account found
          (sound.funded id account found) done fresh
  ]

  -- Let no balance be negative and every balance be the running sum of its account's entries. A withdrawal
  -- that succeeded under a reference that no entry has and no mark names, with a text that is not the
  -- mark of that reference, is undone by reversing the reference: the reversal succeeds, and every
  -- account is as it was before the withdrawal.
  pub withdraw_undo :
      is_ok (withdraw clock id amount options bank).0 ≡ true
      → IsFresh withdraw_reference (get_or options.description (plain "")) bank
      → IsUndone bank (reverse clock' withdraw_reference (withdraw clock id amount options bank).1)
  unfolding withdraw withdraw_body lock_account next_reference
  withdraw_undo done fresh = elim (Option-cases (find_account id bank.database.accounts)) [
    | inl missing ↦ absurd (ground arith)
    | inr (account, found) ↦
        elim (Result-cases (validate (withdrawal_context clock id amount options bank account))) [
          | inl (e, refused) ↦ absurd (ground arith)
          | inr (u, accepted) ↦
              rw (found, accepted)
                (undo_rows clock account (neg amount) _ _ _ bank _
                  (find_account_own id bank.database.accounts found) refl fresh clock'
                  (sound.funded id account found))
        ]
  ]

-- The options of a movement whose text spells the mark.
abbrev pub forged : Reference → Option LedgerEntryType → PostingOptions
forged q type = record { description = some (reversal_of q); type = type }

-- After a deposit that succeeded with the text `REVERSAL_OF:` and the reference `q`, the reversal
-- of `q` is refused as made before, whatever the bank was.
pub forged_mark :
    (clock clock' : Clock) (id : ℕ) (amount : ℤ) (type : Option LedgerEntryType) (q : Reference)
    (bank : Bank)
    → is_ok (deposit clock id amount (forged q type) bank).0 ≡ true
    → (reverse clock' q (deposit clock id amount (forged q type) bank).1).0
      ≡ err (business_rule already_reversed)
unfolding deposit deposit_body lock_account post next_reference
forged_mark clock clock' id amount type q bank done =
    elim (Option-cases (find_account id bank.database.accounts)) [
      | inl missing ↦ absurd (ground arith)
      | inr (account, found) ↦
          elim (Result-cases
            (validate (deposit_context clock id amount (forged q type) bank account))) [
              | inl (e, refused) ↦ absurd (ground arith)
              | inr (u, accepted) ↦
                  rw (found, accepted)
                    (refused_if_marked clock' q _ (
                      ground (
                        arith,
                        (same_reference_iff q q).1 refl,
                        reversal_exists-insert q
                            (entry_for clock account amount (type_or type LedgerEntryType.deposit)
                              (next_reference clock Prefix.dep bank).0 (reversal_of q))
                            bank.database.entries,
                      )))
            ]
    ]
