-- ===== src/Transactions/Ledger/Soundness.antt =====
-- What a posting of modules/transactions/ledger.service.ts does to the tables, and the accounts that are
-- sound.
use mathlib.Core.Path.{subst}
use vaultline.Prelude.{ℕ, refl, ◌≡◌, ap, arith, ◌==◌, if◌then◌else◌, some, Bool-cases, inl, inr}
use vaultline.Prelude.Int.{ℤ, pos, ◌+ℤ◌, ◌≤ℤ◌, int_laws, +ℤ_assoc}
use vaultline.Entities.{Account, LedgerEntryType, Database, Reference, Description}
use vaultline.Transactions.Ledger.Tables.{
  find_account, insert_entry, entry_sum, total_balance, find_account-save, total_balance-save,
  entry_sum-insert, Runs, Runs-insert,
}
use vaultline.Transactions.Ledger.Postings.{Clock, credited, entry_for, post}

-- Money is there, and it is explained: no balance is negative, and each is the running sum of the
-- account's entries, that is their sum, and each entry tells the balance that it left.
pub record IsSound (db : Database) : Type 0 where
  pub funded :
      (id : ℕ) (a : Account) → find_account id db.accounts ≡ some a → pos 0 ≤ℤ a.balance_minor
  pub balanced :
      (id : ℕ) (a : Account)
      → find_account id db.accounts ≡ some a
      → a.balance_minor ≡ entry_sum id db.entries
  pub running :
      (id : ℕ) (a : Account)
      → find_account id db.accounts ≡ some a
      → Runs id (pos 0) db.entries a.balance_minor

module _ (clock : Clock) (account : Account) (amount : ℤ) (type : LedgerEntryType)
    (reference : Reference) (description : Description) (db : Database) where
  pub find_account-post :
      (id : ℕ)
      → find_account id (post clock account amount type reference description db).2.accounts
        ≡ (if account.id == id then some (credited account amount) else find_account id db.accounts)
  unfolding post
  find_account-post id = find_account-save id (credited account amount) db.accounts

  pub entry_sum-post :
      (id : ℕ)
      → entry_sum id (post clock account amount type reference description db).2.entries
        ≡ (if account.id == id then entry_sum id db.entries +ℤ amount else entry_sum id db.entries)
  unfolding post
  entry_sum-post id =
      entry_sum-insert id (entry_for clock account amount type reference description) db.entries

  pub total_balance-post :
      find_account account.id db.accounts ≡ some account
      → total_balance (post clock account amount type reference description db).2.accounts
        ≡ total_balance db.accounts +ℤ amount
  unfolding post
  total_balance-post found =
      grind (int_laws, total_balance-save (credited account amount) account db.accounts found)

  -- The new entry tells the new balance, and is of no other account.
  running-post :
      find_account account.id db.accounts ≡ some account
      → IsSound db
      → (id : ℕ) (a : Account)
      → find_account id (post clock account amount type reference description db).2.accounts
        ≡ some a
      → Runs id
          (pos 0)
          (post clock account amount type reference description db).2.entries
          a.balance_minor
  unfolding post
  running-post found sound id a h =
      let e = entry_for clock account amount type reference description in
      elim (Bool-cases (account.id == id)) [
        | inl own ↦
            let balance : a.balance_minor ≡ account.balance_minor +ℤ amount =
              ground (arith, find_account-post id) in
            let found_id : find_account id db.accounts ≡ some account = ground arith in
            let runs =
              Runs-insert id (pos 0) account.balance_minor e db.entries (λ _. refl)
                (sound.running id account found_id) in
            subst (Runs id (pos 0) (insert_entry e db.entries)) (rw (own, balance)) runs
        | inr other ↦
            let found_id : find_account id db.accounts ≡ some a =
              ground (arith, find_account-post id) in
            let runs =
              Runs-insert id (pos 0) a.balance_minor e db.entries (λ own. cc)
                (sound.running id a found_id) in
            subst (Runs id (pos 0) (insert_entry e db.entries)) (rw other) runs
      ]

  -- A posting keeps the accounts sound if the balance covers it.
  pub post-IsSound :
      find_account account.id db.accounts ≡ some account
      → IsSound db
      → pos 0 ≤ℤ account.balance_minor +ℤ amount
      → IsSound (post clock account amount type reference description db).2
  post-IsSound found sound covered = record {
    funded = λ id a h. ground (arith, find_account-post id, sound.funded id a);
    balanced = λ id a h. ground (
      arith,
      find_account-post id,
      entry_sum-post id,
      sound.balanced id a,
      sound.balanced account.id account found,
    );
    running = λ id a h. running-post found sound id a h;
  }

-- The tables after postings of `amount` in all on one account: its row has changed by the amount,
-- the others have not, the money of the bank has changed by the amount, and sound accounts are sound
-- if the balance covers it.
abbrev pub Posted : Account → ℤ → Database → Database → Type 0
Posted account amount db db' =
    ((j : ℕ)
      → find_account j db'.accounts
        ≡ (if account.id == j then some (credited account amount) else find_account j db.accounts))
    × (total_balance db'.accounts ≡ total_balance db.accounts +ℤ amount)
    × (IsSound db → pos 0 ≤ℤ account.balance_minor +ℤ amount → IsSound db')

pub post-Posted :
    (clock : Clock) (account : Account) (amount : ℤ) (type : LedgerEntryType)
    (reference : Reference) (description : Description) (db : Database)
    → find_account account.id db.accounts ≡ some account
    → Posted account amount db (post clock account amount type reference description db).2
post-Posted clock account amount type reference description db found = (
  find_account-post clock account amount type reference description db,
  total_balance-post clock account amount type reference description db found,
  post-IsSound clock account amount type reference description db found,
)

-- The account's row after a posting is the entity that the posting returned.
pub find_account-Posted :
    (account : Account) (amount : ℤ) (db db' : Database)
    → Posted account amount db db'
    → find_account account.id db'.accounts ≡ some (credited account amount)
find_account-Posted account amount db db' posted = ground (arith, posted.0 account.id)

pub credited-credited :
    (account : Account) (a b : ℤ) → credited (credited account a) b ≡ credited account (a +ℤ b)
credited-credited account a b =
    ap (λ (n : ℤ). record account { balance_minor = n }) (+ℤ_assoc account.balance_minor a b)

-- Two postings on one account, where the second takes money.
pub Posted-trans :
    (account : Account) (a b : ℤ) (db db' db'' : Database)
    → b ≤ℤ pos 0
    → Posted account a db db'
    → Posted (credited account a) b db' db''
    → Posted account (a +ℤ b) db db''
Posted-trans account a b db db' db'' debit first second = (
  λ j. ground (arith, first.0 j, second.0 j, credited-credited account a b),
  rw (second.1, first.1) (+ℤ_assoc (total_balance db.accounts) a b),
  λ sound covered. second.2 (first.2 sound (omega int_laws)) (omega int_laws),
)
