-- ===== src/Transactions/Ledger/Tables.antt =====
-- The queries of modules/transactions/ledger.service.ts on the tables `accounts` and
-- `ledger_entries`: look up, save, insert, and the sums over entries.
use mathlib.Core.Path.{subst}
use vaultline.Prelude.{
  ℕ, ◌≡◌, refl, sym, ap, Bool, true, false, Option, none, some, List, [], ◌∷◌, ◌++◌, arith, ◌==◌,
  ◌&&◌, leb, if◌then◌else◌, Bool-cases, inl, inr,
}
use vaultline.Prelude.Int.{ℤ, pos, ◌+ℤ◌, ◌-ℤ◌, int_laws}
use vaultline.Common.{Result, or_throw, not_found, unknown_account}
use vaultline.Entities.{
  Account, LedgerEntry, LedgerEntryType, withdrawal, transfer_out, Database, Reference,
  same_reference, Description, plain, reversal_of,
}

-- `findOne(AccountEntity, { where: { id } })`
unfoldable pub find_account : ℕ → List Account → Option Account
find_account id [] = none
find_account id (a ∷ accounts) = if a.id == id then some a else find_account id accounts

-- `save(account)`: the row with the account's id is written, or added where there is none.
unfoldable pub save_account : Account → List Account → List Account
save_account a [] = a ∷ []
save_account a (b ∷ accounts) = if b.id == a.id then a ∷ accounts else b ∷ save_account a accounts

-- `lockAccount`. The lock makes the transactions on an account follow one another, as the calls of
-- this model do.
unfoldable pub lock_account : ℕ → Database → Result Account
lock_account id db = or_throw (find_account id db.accounts) (not_found unknown_account)

-- `insert(LedgerEntryEntity, …)`
unfoldable pub insert_entry : LedgerEntry → List LedgerEntry → List LedgerEntry
insert_entry e entries = entries ++ e ∷ []

abbrev pub is_spending : LedgerEntryType → Bool
is_spending withdrawal = true
is_spending transfer_out = true
is_spending _ = false

abbrev pub counts_today : ℕ → ℕ → LedgerEntry → Bool
counts_today id start_of_day e =
    (e.account_id == id) && (is_spending e.type && leb start_of_day e.created_at)

-- `withdrawnToday`: minus the sum of today's withdrawals and outgoing transfers of the account.
unfoldable pub withdrawn_today : ℕ → ℕ → List LedgerEntry → ℤ
withdrawn_today id start_of_day [] = pos 0
withdrawn_today id start_of_day (e ∷ entries) =
    let rest = withdrawn_today id start_of_day entries in
    if counts_today id start_of_day e then rest -ℤ e.amount_minor else rest

-- `find(LedgerEntryEntity, { where: { reference } })`
unfoldable pub entries_of : Reference → List LedgerEntry → List LedgerEntry
entries_of r [] = []
entries_of r (e ∷ entries) =
    let rest = entries_of r entries in if same_reference e.reference r then e ∷ rest else rest

abbrev pub is_reversal_of : Reference → Description → Bool
is_reversal_of r (plain s) = false
is_reversal_of r (reversal_of q) = same_reference q r
is_reversal_of r _ = false

-- `exists(LedgerEntryEntity, { where: { description: `${REVERSAL_PREFIX}${originalReference}` } })`
unfoldable pub reversal_exists : Reference → List LedgerEntry → Bool
reversal_exists r [] = false
reversal_exists r (e ∷ entries) =
    if is_reversal_of r e.description then true else reversal_exists r entries

-- What the balance of an account should be: the sum of its entries.
unfoldable pub entry_sum : ℕ → List LedgerEntry → ℤ
entry_sum id [] = pos 0
entry_sum id (e ∷ entries) =
    let rest = entry_sum id entries in if e.account_id == id then e.amount_minor +ℤ rest else rest

-- The entries of an account lead from one balance to another: each tells the balance that it left.
unfoldable pub Runs : ℕ → ℤ → List LedgerEntry → ℤ → Type 0
Runs id start [] end = start ≡ end
Runs id start (e ∷ entries) end =
    ((e.account_id == id) ≡ true → e.balance_after_minor ≡ start +ℤ e.amount_minor)
    × Runs id (if e.account_id == id then e.balance_after_minor else start) entries end

-- The money of all accounts.
unfoldable pub total_balance : List Account → ℤ
total_balance [] = pos 0
total_balance (a ∷ accounts) = a.balance_minor +ℤ total_balance accounts

pub id-find_account :
    (id : ℕ) {a : Account} (accounts : List Account) → find_account id accounts ≡ some a → a.id ≡ id
unfolding find_account
id-find_account id [] h = cc
id-find_account id {a} (b ∷ accounts) h = ground (arith, id-find_account id {a = a} accounts)

pub find_account-save :
    (id : ℕ) (a : Account) (accounts : List Account)
    → find_account id (save_account a accounts)
      ≡ (if a.id == id then some a else find_account id accounts)
unfolding find_account save_account
find_account-save id a [] = refl
find_account-save id a (b ∷ accounts) = ground (arith, find_account-save id a accounts)

pub total_balance-save :
    (a old : Account) (accounts : List Account)
    → find_account a.id accounts ≡ some old
    → total_balance (save_account a accounts) +ℤ old.balance_minor
      ≡ total_balance accounts +ℤ a.balance_minor
unfolding find_account save_account total_balance
total_balance-save a old [] h = cc
total_balance-save a old (b ∷ accounts) h = grind (int_laws, total_balance-save a old accounts)

pub entry_sum-insert :
    (id : ℕ) (e : LedgerEntry) (entries : List LedgerEntry)
    → entry_sum id (insert_entry e entries) ≡ (
        if e.account_id == id then entry_sum id entries +ℤ e.amount_minor else entry_sum id entries)
unfolding entry_sum insert_entry
entry_sum-insert id e [] = grind int_laws
entry_sum-insert id e (d ∷ entries) = grind (int_laws, entry_sum-insert id e entries)

pub withdrawn_today-insert :
    (id start : ℕ) (e : LedgerEntry) (entries : List LedgerEntry)
    → withdrawn_today id start (insert_entry e entries) ≡ (
        if counts_today id start e
        then withdrawn_today id start entries -ℤ e.amount_minor
        else withdrawn_today id start entries)
unfolding withdrawn_today insert_entry
withdrawn_today-insert id start e [] = refl
withdrawn_today-insert id start e (d ∷ entries) = elim (Bool-cases (counts_today id start d)) [
  | inl counted ↦ elim (Bool-cases (counts_today id start e)) [
    | inl new ↦ rw (withdrawn_today-insert id start e entries, counted, new) (omega int_laws)
    | inr old ↦ rw (withdrawn_today-insert id start e entries, counted, old)
  ]
  | inr other ↦ rw (withdrawn_today-insert id start e entries, other)
]

-- A row that is found is found under its own id.
pub find_account_own :
    (id : ℕ) {a : Account} (accounts : List Account)
    → find_account id accounts ≡ some a
    → find_account a.id accounts ≡ some a
find_account_own id {a} accounts found =
    subst (λ i. find_account i accounts ≡ some a) (sym (id-find_account id accounts found)) found

pub reversal_exists-insert :
    (r : Reference) (e : LedgerEntry) (entries : List LedgerEntry)
    → reversal_exists r (insert_entry e entries)
      ≡ (if reversal_exists r entries then true else is_reversal_of r e.description)
unfolding reversal_exists insert_entry
reversal_exists-insert r e [] = ground arith
reversal_exists-insert r e (d ∷ entries) = ground (arith, reversal_exists-insert r e entries)

pub entries_of-insert :
    (r : Reference) (e : LedgerEntry) (entries : List LedgerEntry)
    → entries_of r (insert_entry e entries)
      ≡ entries_of r entries ++ (if same_reference e.reference r then e ∷ [] else [])
unfolding entries_of insert_entry
entries_of-insert r e [] = refl
entries_of-insert r e (d ∷ entries) = elim (Bool-cases (same_reference d.reference r)) [
  | inl same ↦ rw (same, entries_of-insert r e entries)
  | inr other ↦ rw (other, entries_of-insert r e entries)
]

pub Runs-insert :
    (id : ℕ) (start end : ℤ) (e : LedgerEntry) (entries : List LedgerEntry)
    → ((e.account_id == id) ≡ true → e.balance_after_minor ≡ end +ℤ e.amount_minor)
    → Runs id start entries end
    → Runs id start
        (insert_entry e entries)
        (if e.account_id == id then e.balance_after_minor else end)
unfolding Runs insert_entry
Runs-insert id start end e [] next h =
    (rw h next, ap (λ n. if e.account_id == id then e.balance_after_minor else n) h)
Runs-insert id start end e (d ∷ entries) next (own, h) = (
  own,
  Runs-insert id (if d.account_id == id then d.balance_after_minor else start) end e entries next h,
)
