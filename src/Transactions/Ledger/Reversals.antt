-- ===== src/Transactions/Ledger/Reversals.antt =====
-- What a reversal does, on every branch.
use mathlib.Core.Path.{subst}
use vaultline.Prelude.{
  ℕ, ◌≡◌, refl, sym, ap, arith, true, false, Option, none, some, List, [], ◌∷◌, ◌⊎◌, inl, inr,
  Option-cases, Bool-cases, length,
}
use vaultline.Prelude.Int.{
  ℤ, pos, neg, ◌+ℤ◌, ◌-ℤ◌, ◌≤ℤ◌, ltb_ℤ, neg-+ℤ, +ℤ-zero, sub-eq-add_neg, not_negative,
}
use vaultline.Common.{Result, ok, err, Result-cases}
use vaultline.Entities.{
  Account, LedgerEntry, Reference, Database, LedgerEntryType, reversal_of, Prefix,
  same_reference_iff,
}
use vaultline.Transactions.Ledger.Tables.{
  find_account, save_account, find_account-save, lock_account, entry_sum, id-find_account,
  find_account_own, reversal_exists, reversal_exists-insert, entries_of,
}
use vaultline.Transactions.Ledger.Postings.{Clock, Bank, post, credited, entry_for, next_reference}
use vaultline.Transactions.Ledger.Soundness.{
  IsSound, post-Posted, credited-credited, find_account-post,
}
use vaultline.Transactions.Ledger.Reversal.{
  reverse_entries, reverse, reverse_body, is_empty, account_ids, lock_accounts, announce_reversal,
  ReversalResult,
}

credited-zero : (a : Account) → credited a (neg (pos 0)) ≡ a
unfolding neg
credited-zero a = ap (λ (n : ℤ). record a { balance_minor = n }) (+ℤ-zero a.balance_minor)

-- A row, if there is one, after a posting.
abbrev pub credit_row : ℤ → Option Account → Option Account
credit_row amount none = none
credit_row amount (some a) = some (credited a amount)

pub credit_row-zero : (o : Option Account) → o ≡ credit_row (neg (pos 0)) o
credit_row-zero none = refl
credit_row-zero (some a) = ap some (sym (credited-zero a))

-- The locked entities are the rows of the database.
abbrev Agrees : List Account → Database → Type 0
Agrees accounts db =
    (j : ℕ) (a : Account) → find_account j accounts ≡ some a → find_account j db.accounts ≡ some a

module _ (clock : Clock) (original reference : Reference) where
  -- One entry's posting on an account.
  abbrev reverse_entry : LedgerEntry → Account → Database → Database
  reverse_entry e account db =
      (post clock account (neg e.amount_minor) LedgerEntryType.reversal reference
        (reversal_of original) db).2

  -- The first round of the loop, when all rounds succeed.
  round :
      (e : LedgerEntry) (entries : List LedgerEntry) (accounts : List Account) (db db' : Database)
      → reverse_entries clock original reference (e ∷ entries) accounts db ≡ ok db'
      → (account : Account) × (find_account e.account_id accounts ≡ some account)
        × (pos 0 ≤ℤ account.balance_minor +ℤ neg e.amount_minor)
        × (reverse_entries clock original reference entries
              (save_account (credited account (neg e.amount_minor)) accounts)
              (reverse_entry e account db)
            ≡ ok db')
  unfolding reverse_entries post
  round e entries accounts db db' h = elim (Option-cases (find_account e.account_id accounts)) [
    | inl missing ↦ ground arith
    | inr (account, found) ↦
        elim (Bool-cases (ltb_ℤ (account.balance_minor -ℤ e.amount_minor) (pos 0))) [
          | inl short ↦ ground arith
          | inr enough ↦ (
            account,
            found,
            rw sub-eq-add_neg at (not_negative (account.balance_minor -ℤ e.amount_minor) enough),
            rw (found, enough) at h,
          )
        ]
  ]

  Agrees-round :
      (e : LedgerEntry) (account : Account) (accounts : List Account) (db : Database)
      → find_account e.account_id accounts ≡ some account
      → Agrees accounts db
      → Agrees
          (save_account (credited account (neg e.amount_minor)) accounts)
          (reverse_entry e account db)
  Agrees-round e account accounts db found agrees j a h = ground (
    arith,
    agrees j a,
    find_account-save j (credited account (neg e.amount_minor)) accounts,
    find_account-post clock account (neg e.amount_minor) LedgerEntryType.reversal reference
        (reversal_of original) db j,
  )

  -- Row by row: the balance has gone down by the sum of the account's entries.
  abbrev Undone : List LedgerEntry → Database → Database → Type 0
  Undone entries db db' =
      ((j : ℕ)
        → find_account j db'.accounts
          ≡ credit_row (neg (entry_sum j entries)) (find_account j db.accounts))
      × (IsSound db → IsSound db')

  unchanged :
      (accounts : List Account) (db db' : Database)
      → reverse_entries clock original reference [] accounts db ≡ ok db'
      → db ≡ db'
  unfolding reverse_entries
  unchanged accounts db db' h = cc

  reverse_entries-Undone :
      (entries : List LedgerEntry) (accounts : List Account) (db db' : Database)
      → Agrees accounts db
      → reverse_entries clock original reference entries accounts db ≡ ok db'
      → Undone entries db db'
  unfolding entry_sum
  reverse_entries-Undone [] accounts db db' agrees h =
      subst (Undone [] db) (unchanged accounts db db' h)
        (λ j. credit_row-zero (find_account j db.accounts), λ sound. sound)
  reverse_entries-Undone (e ∷ entries) accounts db db' agrees h =
      let (account, found, enough, rest) = round e entries accounts db db' h in
      let here = find_account_own e.account_id db.accounts (agrees e.account_id account found) in
      let once =
        post-Posted clock account (neg e.amount_minor) LedgerEntryType.reversal reference
          (reversal_of original) db here in
      let more =
        reverse_entries-Undone entries _ _ db' (Agrees-round e account accounts db found agrees)
          rest in
      (
        λ j. ground (
          arith,
          more.0 j,
          once.0 j,
          here,
          id-find_account e.account_id accounts found,
          credited-credited account (neg e.amount_minor) (neg (entry_sum j entries)),
          neg-+ℤ e.amount_minor (entry_sum j entries),
        ),
        λ sound. more.1 (once.2 sound enough),
      )

  reverse_entry-marks :
      (e : LedgerEntry) (account : Account) (db : Database)
      → reversal_exists original (reverse_entry e account db).entries ≡ true
  unfolding post
  reverse_entry-marks e account db = ground (
    arith,
    (same_reference_iff original original).1 refl,
    reversal_exists-insert original
        (entry_for clock account (neg e.amount_minor) LedgerEntryType.reversal reference
          (reversal_of original))
        db.entries,
  )

  -- Each round leaves the mark of the reversal.
  reverse_entries-marks :
      (entries : List LedgerEntry) (accounts : List Account) (db db' : Database)
      → reverse_entries clock original reference entries accounts db ≡ ok db'
      → (reversal_exists original db.entries ≡ true) ⊎ (is_empty entries ≡ false)
      → reversal_exists original db'.entries ≡ true
  reverse_entries-marks [] accounts db db' h marked =
      subst (λ d. reversal_exists original d.entries ≡ true) (unchanged accounts db db' h)
        (ground arith)
  reverse_entries-marks (e ∷ entries) accounts db db' h marked =
      let (account, found, enough, rest) = round e entries accounts db db' h in
      reverse_entries-marks entries _ _ db' rest (inl (reverse_entry-marks e account db))

Agrees-cons :
    (id : ℕ) (b : Account) (rest : List Account) (db : Database)
    → find_account id db.accounts ≡ some b
    → Agrees rest db
    → Agrees (b ∷ rest) db
unfolding find_account
Agrees-cons id b rest db found agrees j a h =
    ground (arith, id-find_account id db.accounts found, agrees j a)

lock_accounts-Agrees :
    (ids : List ℕ) (accounts : List Account) (db : Database)
    → lock_accounts ids db ≡ ok accounts
    → Agrees accounts db
unfolding lock_accounts lock_account find_account
lock_accounts-Agrees [] accounts db h = λ j a found. ground arith
lock_accounts-Agrees (id ∷ ids) accounts db h = elim (Option-cases (find_account id db.accounts)) [
  | inl missing ↦ absurd (ground arith)
  | inr (b, found) ↦ elim (Result-cases (lock_accounts ids db)) [
    | inl (e, stuck) ↦ absurd (ground arith)
    | inr (rest, locked) ↦
        let e : b ∷ rest ≡ accounts = ground arith in
        subst (λ l. Agrees l db) e
          (Agrees-cons id b rest db found (lock_accounts-Agrees ids rest db locked))
  ]
]

database-announce_reversal :
    (original reference : Reference) (entries : List LedgerEntry) (bank : Bank)
    → (announce_reversal original reference entries bank).database ≡ bank.database
unfolding announce_reversal
database-announce_reversal original reference [] bank = refl
database-announce_reversal original reference (e ∷ entries) bank =
    database-announce_reversal original reference entries _

module _ (clock : Clock) (original : Reference) (bank : Bank) where
  abbrev original_entries : List LedgerEntry
  original_entries = entries_of original bank.database.entries

  abbrev pub Reverses : Result ReversalResult × Bank → Type 0
  Reverses (ok r, bank') =
      ((j : ℕ)
        → find_account j bank'.database.accounts
          ≡ credit_row (neg (entry_sum j original_entries)) (find_account j bank.database.accounts))
      × (reversal_exists original bank.database.entries ≡ false)
      × (reversal_exists original bank'.database.entries ≡ true)
      × (r.reversed_entries ≡ length original_entries)
  Reverses (err e, bank') = (bank'.database ≡ bank.database) × (bank'.published ≡ bank.published)

  -- The same, and sound accounts are sound.
  abbrev ReversesSoundly : Result ReversalResult × Bank → Type 0
  ReversesSoundly outcome = Reverses outcome × (IsSound bank.database → IsSound outcome.1.database)

  reverse-ReversesSoundly : ReversesSoundly (reverse clock original bank)
  unfolding reverse reverse_body next_reference
  reverse-ReversesSoundly = elim (Bool-cases (reversal_exists original bank.database.entries)) [
    | inl old ↦ rw old ((refl, refl), λ sound. sound)
    | inr new ↦ elim (Bool-cases (is_empty original_entries)) [
      | inl none_found ↦ rw (new, none_found) ((refl, refl), λ sound. sound)
      | inr some_found ↦
          elim (Result-cases (lock_accounts (account_ids original_entries) bank.database)) [
            | inl (e, missing) ↦ rw (new, some_found, missing) ((refl, refl), λ sound. sound)
            | inr (accounts, locked) ↦
                elim (Result-cases (
                  reverse_entries clock original (next_reference clock Prefix.rev bank).0
                    original_entries accounts bank.database)) [
                      | inl (e, short) ↦
                          rw (new, some_found, locked, short) ((refl, refl), λ sound. sound)
                      | inr (db, done) ↦
                          rw (new, some_found, locked, done)
                            let undone =
                                reverse_entries-Undone clock original _ original_entries accounts _
                                  db
                                  (lock_accounts-Agrees (account_ids original_entries) accounts _
                                    locked)
                                  done in
                              let marked =
                                reverse_entries-marks clock original _ original_entries accounts _
                                  db done (inr some_found) in
                              rw database-announce_reversal
                                ((undone.0, new, marked, refl), undone.1)
                    ]
          ]
    ]
  ]

  -- A reversal that succeeds takes back from each account the sum of its entries with the reference.
  -- No mark of a reversal was there before, one is there now, and the result has the number of those
  -- entries. If it throws, the database is as it was and nothing is published.
  pub reverse-Reverses : Reverses (reverse clock original bank)
  reverse-Reverses = reverse-ReversesSoundly.0

  -- Where no balance is negative and every balance is the running sum of its account's entries, this is so
  -- after a reversal, whether it succeeds or throws.
  pub reverse-IsSound : IsSound bank.database → IsSound (reverse clock original bank).1.database
  reverse-IsSound sound = reverse-ReversesSoundly.1 sound
